-- ===== src/Core/Ledger/Nonce.antt =====
-- core/blockchain.go: the parts of an operation that leave every account's nonce alone.
use dnas.Base.{
  ℕ, ◌-◌, ◌≡◌, refl, sym, ◌∙◌, ap, subst, false, ◌⊎◌, inl, inr, List, [], ◌∷◌, add64, arith,
}
use dnas.Base.Str.{Str, str_eq, str_eq_iff}
use dnas.Base.Map.{IsMap, lookup}
use dnas.Core.Tx.{Output, Transaction}
use dnas.Core.Ledger.{
  Account, is_empty_account, State, get, Journal, write, set, steps, or_zero_account,
  with_asset_delta, ◌>>=◌, read,
}
use dnas.Core.Ledger.Apply.{charge_sponsor, credit, credit_all}
use dnas.Core.Ledger.Keeps.{Keeps, pure-Keeps, then-Keeps}
use dnas.Core.Ledger.Undo.{write-IsMap, lookup-write}

abbrev pub nonce_of : Str → State → ℕ
nonce_of a s = (get a s).nonce

write-nonce_of :
    (a b : Str) (acc : Account) (s : State)
    → IsMap s
    → acc.nonce ≡ nonce_of b s
    → nonce_of a (write b acc s) ≡ nonce_of a s
unfolding is_empty_account
write-nonce_of a b acc s m e = ground (arith, lookup-write b acc a s m, str_eq_iff b a)

-- A ledger in which `a` has the nonce.
pub record HasNonce (a : Str) (n : ℕ) (s : State) : Type 0 where
  pub is_map : IsMap s
  pub nonce : nonce_of a s ≡ n

write-HasNonce :
    (a b : Str) (n : ℕ) (acc : Account) (s : State)
    → acc.nonce ≡ nonce_of b s
    → HasNonce a n s
    → HasNonce a n (write b acc s)
write-HasNonce a b n acc s e h = record {
  is_map = write-IsMap b acc s h.is_map;
  nonce = write-nonce_of a b acc s h.is_map e ∙ h.nonce;
}

-- The ledger after `chargeSponsor`, error or not.
charge_sponsor_cases :
    (tx : Transaction) (reserve : ℕ) (j : Journal)
    → (let payer = get tx.fee_payer j.state in
        ((charge_sponsor tx reserve j).1.state ≡ j.state)
        ⊎ ((charge_sponsor tx reserve j).1.state
            ≡ write tx.fee_payer (record payer { balance = payer.balance - tx.fee }) j.state))
unfolding charge_sponsor steps
charge_sponsor_cases tx reserve j = ground arith

credit_cases :
    (o : Output) (j : Journal)
    → (let recip = get o.to j.state in
        ((credit o j).1.state ≡ j.state)
        ⊎ ((credit o j).1.state
            ≡ write o.to (record recip { balance = add64 recip.balance o.amount }) j.state))
unfolding credit steps
credit_cases o j = ground arith

lookup-write_other :
    (b : Str) (acc : Account) (a : Str) (s : State)
    → IsMap s
    → str_eq b a ≡ false
    → lookup a (write b acc s) ≡ lookup a s
lookup-write_other b acc a s m other = ground (arith, lookup-write b acc a s m)

module _ (a : Str) (n : ℕ) where
  -- The predicate on journals that the actions keep.
  abbrev pub HasNonceAfter : Journal → Type 0
  HasNonceAfter j = HasNonce a n j.state

  pub charge_sponsor-Keeps :
      (tx : Transaction) (reserve : ℕ) → Keeps HasNonceAfter (charge_sponsor tx reserve)
  charge_sponsor-Keeps tx reserve = record {
    keep = λ j h. elim (charge_sponsor_cases tx reserve j) [
      | inl same ↦ subst (HasNonce a n) (sym same) h
      | inr wrote ↦
          subst (HasNonce a n) (sym wrote) (write-HasNonce a tx.fee_payer n _ j.state refl h)
    ];
  }

  credit-Keeps : (o : Output) → Keeps HasNonceAfter (credit o)
  credit-Keeps o = record {
    keep = λ j h. elim (credit_cases o j) [
      | inl same ↦ subst (HasNonce a n) (sym same) h
      | inr wrote ↦ subst (HasNonce a n) (sym wrote) (write-HasNonce a o.to n _ j.state refl h)
    ];
  }

  pub credit_all-Keeps : (os : List Output) → Keeps HasNonceAfter (credit_all os)
  unfolding credit_all
  credit_all-Keeps [] = pure-Keeps tt
  credit_all-Keeps (o ∷ os) = then-Keeps (credit-Keeps o) (credit_all-Keeps os)

  pub set-Keeps : (b : Str) (acc : Account) → str_eq b a ≡ false → Keeps HasNonceAfter (set b acc)
  unfolding set
  set-Keeps b acc other = record {
    keep = λ j h. record {
      is_map = write-IsMap b acc j.state h.is_map;
      nonce =
          ap (λ o. (or_zero_account o).nonce) (lookup-write_other b acc a j.state h.is_map other)
          ∙ h.nonce;
    };
  }

  pub give_asset-Keeps :
      (to id : Str) (delta : ℕ)
      → Keeps HasNonceAfter (read to >>= λ recip. set to (with_asset_delta id delta recip))
  unfolding steps with_asset_delta
  give_asset-Keeps to id delta = record { keep = λ j h. write-HasNonce a to n _ j.state refl h }
