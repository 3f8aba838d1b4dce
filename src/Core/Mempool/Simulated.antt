-- ===== src/Core/Mempool/Simulated.antt =====
-- core/mempool.go: a simulated transaction moves the nonce of its sender and no other.
use dnas.Base.{
  ℕ, if◌then◌else◌, ◌||◌, List, [], ◌∷◌, add64, ◌≡◌, refl, ◌∙◌, arith, inl, inr, Bool-cases,
}
use dnas.Base.Str.{Str, str_eq, str_eq_iff}
use dnas.Base.Map.{Map, put, lookup-put}
use dnas.Core.Env.{Env}
use dnas.Core.Tx.{
  Output, Transaction, is_asset_op, is_asset_transfer, is_issue, is_name_op, is_sponsored,
  recipients,
}
use dnas.Core.Chain.View.{View}
use dnas.Core.Mempool.Select.{
  Sim, credit_asset, credit_recipients, debit_sponsor, sender_after, sim_of, simulate,
}

module _ (view : View) where
  unfoldable pub nonce_in : Str → Map Sim → ℕ
  unfolding sim_of
  nonce_in a cache = (sim_of view a cache).nonce

  nonce_in-put :
      (k a : Str) (s : Sim) (cache : Map Sim)
      → nonce_in a (put k s cache) ≡ (if str_eq k a then s.nonce else nonce_in a cache)
  unfolding nonce_in sim_of
  nonce_in-put k a s cache = ground (arith, lookup-put k a s cache)

  put-kept :
      (k a : Str) (s : Sim) (cache : Map Sim)
      → s.nonce ≡ nonce_in k cache
      → nonce_in a (put k s cache) ≡ nonce_in a cache
  put-kept k a s cache same = ground (arith, nonce_in-put k a s cache, str_eq_iff k a, same)

  nonce_in-debit_sponsor :
      (a : Str) (tx : Transaction) (cache : Map Sim)
      → nonce_in a (debit_sponsor view tx cache) ≡ nonce_in a cache
  unfolding debit_sponsor nonce_in
  nonce_in-debit_sponsor a tx cache = elim (Bool-cases (is_sponsored tx)) [
    | inl paid ↦ rw paid (put-kept tx.fee_payer a _ cache refl)
    | inr own_fee ↦ rw own_fee refl
  ]

  nonce_in-credit_asset :
      (a : Str) (tx : Transaction) (cache : Map Sim)
      → nonce_in a (credit_asset view tx cache) ≡ nonce_in a cache
  unfolding credit_asset nonce_in
  nonce_in-credit_asset a tx cache = put-kept tx.to a _ cache refl

  nonce_in-credit_recipients :
      (a : Str) (os : List Output) (cache : Map Sim)
      → nonce_in a (credit_recipients view os cache) ≡ nonce_in a cache
  unfolding credit_recipients nonce_in
  nonce_in-credit_recipients a [] cache = refl
  nonce_in-credit_recipients a (o ∷ os) cache =
      nonce_in-credit_recipients a os _ ∙ put-kept o.to a _ cache refl

  sender_after-nonce :
      (env : Env) (tx : Transaction) (s : Sim) → (sender_after env tx s).nonce ≡ add64 s.nonce 1
  unfolding sender_after
  sender_after-nonce env tx s = ground arith

  paid_in :
      (env : Env) (a : Str) (tx : Transaction) (cache : Map Sim)
      → nonce_in a (
          debit_sponsor view tx
            (put tx.from (sender_after env tx (sim_of view tx.from cache)) cache))
        ≡ (if str_eq tx.from a then add64 (nonce_in a cache) 1 else nonce_in a cache)
  unfolding nonce_in
  paid_in env a tx cache =
      let s = sender_after env tx (sim_of view tx.from cache) in
      nonce_in-debit_sponsor a tx (put tx.from s cache)
      ∙ ground (
        arith,
        nonce_in-put tx.from a s cache,
        sender_after-nonce env tx (sim_of view tx.from cache),
        str_eq_iff tx.from a,
      )

  abbrev paid_cache : Env → Transaction → Map Sim → Map Sim
  paid_cache env tx cache =
      debit_sponsor view tx (put tx.from (sender_after env tx (sim_of view tx.from cache)) cache)

  simulate-unfolded :
      (env : Env) (tx : Transaction) (cache : Map Sim)
      → simulate env view tx cache ≡ (
          if is_name_op tx || is_issue tx || is_asset_op tx
          then paid_cache env tx cache
          else if is_asset_transfer tx
          then credit_asset view tx (paid_cache env tx cache)
          else credit_recipients view (recipients tx) (paid_cache env tx cache))
  unfolding simulate
  simulate-unfolded env tx cache = refl

  pub nonce_in-simulate :
      (env : Env) (a : Str) (tx : Transaction) (cache : Map Sim)
      → nonce_in a (simulate env view tx cache)
        ≡ (if str_eq tx.from a then add64 (nonce_in a cache) 1 else nonce_in a cache)
  nonce_in-simulate env a tx cache =
      let paid = paid_cache env tx cache in
      rw (simulate-unfolded env tx cache)
        (elim (Bool-cases (is_name_op tx || is_issue tx || is_asset_op tx)) [
          | inl coinless ↦ rw coinless (paid_in env a tx cache)
          | inr other ↦ rw other (elim (Bool-cases (is_asset_transfer tx)) [
            | inl asset ↦ rw asset (nonce_in-credit_asset a tx paid ∙ paid_in env a tx cache)
            | inr coin ↦
                rw coin (nonce_in-credit_recipients a (recipients tx) paid ∙ paid_in env a tx cache)
          ])
        ])
