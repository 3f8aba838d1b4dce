-- ===== src/Core/Tx/Auth/Threshold.antt =====
-- core/transaction.go: `verifyMultisig` counts distinct members.
use dnas.Base.{
  ◌≤◌, ◌≡◌, refl, subst, inl, inr, ltb, true, false, not, some, List, [], ◌∷◌, All, length, arith,
  Option-cases,
}
use dnas.Base.Str.{Str, str_eq, str_eq_self}
use dnas.Base.Result.{Result, ok, or_fail, >>=-eq-ok, fail_if-eq-ok}
use dnas.Core.Tx.{MultisigScript, Transaction}
use dnas.Core.Tx.Errors.{TxError}
use dnas.Core.Tx.Codec.{signing_bytes}
use dnas.Core.Env.{Env}
use dnas.Core.Tx.Auth.{contains, find_member, match_signatures, verify_multisig}

-- No entry stands twice.
abbrev pub IsDistinct : List Str → Type 0
IsDistinct [] = Unit
IsDistinct (x ∷ xs) = (contains x xs ≡ false) × IsDistinct xs

ok_injective : {A : Type 0} {a b : A} (r : Result TxError A) → r ≡ ok a → r ≡ ok b → a ≡ b
ok_injective r h e = cc

module _ (env : Env) where
  -- The member signed: it is one of `members`, and its key verifies one of the signatures.
  pub record HasSigned (members sigs : List Str) (msg pk : Str) : Type 0 where
    pub member : contains pk members ≡ true
    pub signature : Str
    pub among : contains signature sigs ≡ true
    pub verifies : env.wallet.verify pk signature msg ≡ true

  find_member-some :
      (used : List Str) (sig msg : Str) (members : List Str) {pk : Str}
      → find_member env used sig msg members ≡ some pk
      → (contains pk used ≡ false)
        × (contains pk members ≡ true)
        × (env.wallet.verify pk sig msg ≡ true)
  unfolding find_member contains
  find_member-some used sig msg [] e = cc
  find_member-some used sig msg (m ∷ ms) {pk = pk} e =
      ground (arith, find_member-some used sig msg ms {pk = pk}, str_eq_self pk)

  match_signatures-ok :
      (members sigs : List Str) (msg : Str) (all used : List Str) {found : List Str}
      → ((s : Str) → contains s sigs ≡ true → contains s all ≡ true)
      → IsDistinct used
      → All (HasSigned members all msg) used
      → match_signatures env members msg used sigs ≡ ok found
      → IsDistinct found × All (HasSigned members all msg) found
  unfolding match_signatures contains
  match_signatures-ok members [] msg all used sub d h e =
      subst (λ u. IsDistinct u × All (HasSigned members all msg) u) (ok_injective _ refl e) (d, h)
  match_signatures-ok members (sig ∷ sigs) msg all used sub d h e =
      elim (Option-cases (find_member env used sig msg members)) [
        | inl lost ↦ cc
        | inr (pk, hit) ↦
            let (fresh, member, verifies) = find_member-some used sig msg members hit in
            match_signatures-ok members sigs msg all (pk ∷ used) (λ s i. sub s (ground arith))
              (fresh, d)
              (
                record {
                  member = member;
                  signature = sig;
                  among = sub sig (ground (arith, str_eq_self sig));
                  verifies = verifies;
                },
                h,
              )
              (rw (hit, match_signatures) at e)
      ]

-- A multisig transaction that `verifyMultisig` accepts is signed by at least `threshold` distinct
-- members: each is a listed key and verifies one of the signatures over the signing bytes.
pub verify_multisig-threshold :
    (env : Env) (t : Transaction) (ms : MultisigScript)
    → verify_multisig env t ms ≡ ok tt
    → (used : List Str) × IsDistinct used
      × All (HasSigned env ms.pub_keys t.signatures (signing_bytes env t)) used
      × (ms.threshold ≤ length used)
unfolding verify_multisig
verify_multisig-threshold env t ms e =
    let msg = signing_bytes env t in
    let (addr, e₁, _) =
      >>=-eq-ok
        (or_fail (env.wallet.multisig_address ms.threshold ms.pub_keys) TxError.not_authorized) _
        e in
    let (_, e₂) = fail_if-eq-ok (not (str_eq addr t.from)) TxError.not_authorized _ e₁ in
    let (_, e₃) =
      fail_if-eq-ok (ltb (length t.signatures) ms.threshold) TxError.not_authorized _ e₂ in
    let (_, e₄) =
      fail_if-eq-ok (ltb (length ms.pub_keys) (length t.signatures)) TxError.not_authorized _ e₃ in
    let (used, e₅, matched) =
      >>=-eq-ok (match_signatures env ms.pub_keys msg [] t.signatures) _ e₄ in
    let (distinct, signed) =
      match_signatures-ok env ms.pub_keys t.signatures msg t.signatures [] (λ s i. i) tt tt
        matched in
    (used, distinct, signed, ground arith)
