-- ===== src/Core/Mempool/Template.antt =====
-- core/mempool.go: what `Select` chooses fits a block, in the order of each sender's nonces.
use dnas.Base.{
  ℕ, zero, suc, ◌+◌, ◌≤◌, if◌then◌else◌, true, false, Option, none, some, List, [], ◌∷◌, ◌++◌,
  length, map, All, add64, ◌≡◌, refl, ◌∙◌, ap, arith, ⊤,
}
use dnas.Base.Str.{Str, str_eq}
use dnas.Base.Map.{Map, lookup}
use dnas.Core.Env.{Env}
use dnas.Core.Params.{max_block_bytes, max_block_verify_ops}
use dnas.Core.Tx.{Transaction}
use dnas.Core.Tx.Codec.{size}
use dnas.Core.Block.{block_verify_ops}
use dnas.Core.Chain.View.{View, account_at}
use dnas.Core.Mempool.{Mempool, sort_strs}
use dnas.Core.Mempool.Rates.{effective_rates}
use dnas.Core.Mempool.Eligible.{SelCandidate, group, is_eligible}
use dnas.Core.Mempool.Select.{
  Template, best_of, is_ready, name_claimed, names_of, select, select_loop, sorted_runs,
  take_candidate, then_rest,
}
use dnas.Core.Mempool.Simulated.{nonce_in, nonce_in-simulate}
use dnas.Core.Mempool.Candidates.{
  SoundRuns, Best, best_of-Best, group-SoundRuns, sorted_runs-SoundRuns,
}

abbrev pub total_size : Env → List Transaction → ℕ
total_size env [] = 0
total_size env (tx ∷ txs) = size env tx + total_size env txs

-- Each transaction has the next nonce of its sender, those before it counted.
abbrev pub InTurn : (Str → ℕ) → List Transaction → Type 0
InTurn next [] = ⊤
InTurn next (tx ∷ txs) =
    (tx.nonce ≡ next tx.from)
    × InTurn (λ a. if str_eq tx.from a then add64 (next a) 1 else next a) txs

-- No name is operated on twice.
abbrev pub NamesOnce : List Str → List Transaction → Type 0
NamesOnce claimed [] = ⊤
NamesOnce claimed (tx ∷ txs) =
    (name_claimed tx.name claimed ≡ false) × NamesOnce (names_of tx.name ++ claimed) txs

module _ (env : Env) (view : View) where
  -- What the loop selects, from a state on.
  record IsTemplate (next : Str → ℕ) (left : ℕ) (t : Template) (txs : List Transaction)
      : Type 0 where
    pub bytes : t.weight + total_size env txs ≤ max_block_bytes
    pub cost : t.ops + block_verify_ops txs ≤ max_block_verify_ops
    pub few : length txs ≤ left
    pub in_turn : InTurn next txs
    pub once : NamesOnce t.claimed txs
    pub each : All (λ tx. is_eligible env view tx ≡ true) txs

  record IsFilled (t : Template) : Type 0 where
    pub bytes : t.weight ≤ max_block_bytes
    pub cost : t.ops ≤ max_block_verify_ops

  ready_fits :
      (c : SelCandidate) (t : Template)
      → is_ready view c t ≡ true
      → (c.tx.nonce ≡ nonce_in view c.tx.from t.cache)
        × (t.weight + c.size ≤ max_block_bytes)
        × (t.ops + c.ops ≤ max_block_verify_ops)
        × (name_claimed c.tx.name t.claimed ≡ false)
  unfolding is_ready nonce_in
  ready_fits c t ready = ground arith

  module _ (runs : Map (List SelCandidate)) (senders : List Str)
      (sound : SoundRuns env view runs) where
    chosen-IsTemplate :
        (o : Option SelCandidate) (left : ℕ) (t : Template) (next : Str → ℕ)
        → ((t' : Template) (next' : Str → ℕ)
            → ((a : Str) → nonce_in view a t'.cache ≡ next' a)
            → IsFilled t'
            → IsTemplate next' left t' (select_loop env view runs senders left t'))
        → ((a : Str) → nonce_in view a t.cache ≡ next a)
        → IsFilled t
        → Best env view t o
        → IsTemplate next (suc left) t (
            then_rest o (λ c. select_loop env view runs senders left (take_candidate env view c t)))
    unfolding take_candidate block_verify_ops
    chosen-IsTemplate none left t next ih same filled best = record {
      bytes = omega (arith, filled.bytes);
      cost = omega (arith, filled.cost);
      few = omega arith;
      in_turn = tt;
      once = tt;
      each = tt;
    }
    chosen-IsTemplate (some c) left t next ih same filled best =
        let (sized, ready) = best in
        let (nonce, bytes, cost, unclaimed) = ready_fits c t ready in
        let rest =
          ih (take_candidate env view c t)
            (λ a. if str_eq c.tx.from a then add64 (next a) 1 else next a)
            (λ a.
              nonce_in-simulate view env a c.tx t.cache
              ∙ ap (λ n. if str_eq c.tx.from a then add64 n 1 else n) (same a))
            (record { bytes = bytes; cost = cost }) in
        record {
          bytes = omega (arith, rest.bytes, sized.sized);
          cost = omega (arith, rest.cost, sized.costed);
          few = omega (arith, rest.few);
          in_turn = (nonce ∙ same c.tx.from, rest.in_turn);
          once = (unclaimed, rest.once);
          each = (sized.eligible, rest.each);
        }

    select_loop-IsTemplate :
        (left : ℕ) (t : Template) (next : Str → ℕ)
        → ((a : Str) → nonce_in view a t.cache ≡ next a)
        → IsFilled t
        → IsTemplate next left t (select_loop env view runs senders left t)
    unfolding select_loop block_verify_ops
    select_loop-IsTemplate zero t next same filled = record {
      bytes = omega (arith, filled.bytes);
      cost = omega (arith, filled.cost);
      few = omega arith;
      in_turn = tt;
      once = tt;
      each = tt;
    }
    select_loop-IsTemplate (suc left) t next same filled =
        chosen-IsTemplate (best_of view runs t senders none) left t next
          (λ t' next' same' filled'. select_loop-IsTemplate left t' next' same' filled') same filled
          (best_of-Best env view runs t senders none sound tt)

  -- What `Select` chooses for a block of so many transactions: no more of them than asked; no more
  -- bytes and no more verification cost than a block may have; each pays the base fee, passes the
  -- sanity and height rules of the next block and operates on a name only as its record allows; no two
  -- operate on one name; and each has the next nonce of its sender, counted from the account's over
  -- those chosen before it.
  pub select-IsTemplate :
      (quotient : ℕ → ℕ → ℕ) (max : ℕ) (m : Mempool)
      → (total_size env (select env quotient view max m) ≤ max_block_bytes)
        × (block_verify_ops (select env quotient view max m) ≤ max_block_verify_ops)
        × (length (select env quotient view max m) ≤ max)
        × InTurn (λ a. (account_at view a).nonce) (select env quotient view max m)
        × NamesOnce [] (select env quotient view max m)
        × All (λ tx. is_eligible env view tx ≡ true) (select env quotient view max m)
  unfolding select lookup nonce_in
  select-IsTemplate quotient max m =
      let runs = group env quotient view (effective_rates env quotient m) m.txs [] in
      let t =
        select_loop-IsTemplate (sorted_runs runs) (sort_strs (map (λ e. e.0) runs))
          (sorted_runs-SoundRuns env view runs
            (group-SoundRuns env view quotient (effective_rates env quotient m) m.txs [] (λ a. tt)))
          max (record { cache = []; claimed = []; weight = 0; ops = 0 })
          (λ a. (account_at view a).nonce) (λ a. refl)
          (record { bytes = omega arith; cost = omega arith }) in
      (omega (arith, t.bytes), omega (arith, t.cost), t.few, t.in_turn, t.once, t.each)
