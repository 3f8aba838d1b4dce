-- ===== src/Core/Script/HashLock.antt =====
-- core/scriptbuild.go: the two spends of the hash-time-locked predicate.
use dnas.Base.{
  ℕ, ◌+◌, ◌^◌, ◌≤◌, ◌<◌, ◌&&◌, if◌then◌else◌, Bool, true, false, some, List, [], ◌∷◌, length, ◌≡◌,
  refl, ap, ◌∙◌, arith, inl, inr, Bool-cases,
}
use dnas.Base.Str.{Str, str_eq}
use dnas.Base.Result.{Result, ok, err, ◌>>=◌}
use dnas.Core.Env.{Env}
use dnas.Core.Tx.{Transaction}
use dnas.Core.Tx.Codec.{signing_bytes}
use dnas.Core.Script.Spend.{eval_script-spending, fits, push_witness-item, spending}
use dnas.Core.Script.{ScriptError, Vm, max_script_bytes, max_script_witness, verifies}
use dnas.Core.Script.Eval.{
  eval_script, initial_vm, push_witness, run_loaded, ScriptResult, finished, run_script,
}
use dnas.Core.Script.Build.{built_bytes, htlc}
use dnas.Core.Script.Build.Uint.{uint_item-length}
use dnas.Core.Script.Build.Code.{code_size, assemble-le, assemble-some}
use dnas.Core.Script.Items.{assemble, item_valid, items_valid}
use dnas.Core.Script.Predicates.{capped, with_witness, run_script-Built, verdict}
use dnas.Core.Script.HashRuns.{htlc_items, claimed, htlc-valid, htlc-Built, htlc-claim, htlc-refund}

-- The two witnesses, as the machine holds them.
push_claim :
    (env : Env) {sig_hex preimage_hex one_hex sig preimage : Str}
    → env.crypto.hex_decode sig_hex ≡ some sig
    → env.crypto.hex_decode preimage_hex ≡ some preimage
    → env.crypto.hex_decode one_hex ≡ some (1 ∷ [])
    → push_witness env (sig_hex ∷ preimage_hex ∷ one_hex ∷ []) initial_vm ≡ (
        if fits sig && fits preimage
        then ok (with_witness ((1 ∷ []) ∷ preimage ∷ sig ∷ []))
        else err ScriptError.witness_item)
unfolding push_witness
push_claim env {sig_hex} {preimage_hex} {one_hex} {sig} {preimage} sig_ok preimage_ok one_ok =
    push_witness-item env sig_hex sig (preimage_hex ∷ one_hex ∷ []) initial_vm sig_ok (omega arith)
    ∙ (elim (Bool-cases (fits sig)) [
      | inr long ↦ rw long refl
      | inl short ↦ rw short (
          push_witness-item env preimage_hex preimage (one_hex ∷ []) (with_witness (sig ∷ []))
            preimage_ok (omega arith)
          ∙ (elim (Bool-cases (fits preimage)) [
            | inr long ↦ rw long refl
            | inl small ↦ rw small (
                push_witness-item env one_hex (1 ∷ []) [] (with_witness (preimage ∷ sig ∷ []))
                  one_ok (omega arith))
          ]))
    ])

push_refund :
    (env : Env) {sig_hex empty_hex sig : Str}
    → env.crypto.hex_decode sig_hex ≡ some sig
    → env.crypto.hex_decode empty_hex ≡ some []
    → push_witness env (sig_hex ∷ empty_hex ∷ []) initial_vm
      ≡ (if fits sig then ok (with_witness ([] ∷ sig ∷ [])) else err ScriptError.witness_item)
unfolding push_witness
push_refund env {sig_hex} {empty_hex} {sig} sig_ok empty_ok =
    push_witness-item env sig_hex sig (empty_hex ∷ []) initial_vm sig_ok (omega arith)
    ∙ (elim (Bool-cases (fits sig)) [
      | inr long ↦ rw long refl
      | inl short ↦
          rw short
            (push_witness-item env empty_hex [] [] (with_witness (sig ∷ [])) empty_ok (omega arith))
    ])

-- The machine runs if the witness fits.
run_loaded-if :
    (env : Env) (msg script : Str) (c : Bool) (v : Vm) (result : Result ScriptError ScriptResult)
    → finished (run_script env msg script v) ≡ some result
    → run_loaded env msg
        ((if c then ok v else err ScriptError.witness_item) >>= λ w. ok (script, w))
      ≡ some (if c then result else err ScriptError.witness_item)
unfolding run_loaded
run_loaded-if env msg script true v result ran = ran
run_loaded-if env msg script false v result ran = refl

-- The predicate of `ScriptHTLC`, for a hash and two keys of at most 520 bytes together, a timeout below
-- 2 ^ 64 and a hash function of at most 520 bytes, is built. `evalScript` of a transaction that carries
-- it, from the address of the script: a claim, with the signature, the preimage and a one, is accepted
-- exactly if both of the first fit the witness limit of 520 bytes, the preimage hashes to the lock and
-- the recipient's key verifies the signature, at any height; a refund, with the signature and an empty
-- item, exactly if the signature fits and the sender's key verifies it, from the timeout on, which
-- counts as at most 2 ^ 31.
pub htlc-spends :
    (env : Env) (t : Transaction)
    (script_hex hash_hex recipient_hex sender_hex sig_hex preimage_hex one_hex empty_hex : Str)
    (hash recipient sender sig preimage : Str) (timeout : ℕ)
    → env.crypto.hex_decode hash_hex ≡ some hash
    → env.crypto.hex_decode recipient_hex ≡ some recipient
    → env.crypto.hex_decode sender_hex ≡ some sender
    → env.crypto.hex_decode sig_hex ≡ some sig
    → env.crypto.hex_decode preimage_hex ≡ some preimage
    → env.crypto.hex_decode one_hex ≡ some (1 ∷ [])
    → env.crypto.hex_decode empty_hex ≡ some []
    → length hash + length recipient + length sender ≤ 520
    → length (env.crypto.sha256 preimage) ≤ 520
    → timeout < 2 ^ 64
    → env.crypto.hex_decode script_hex ≡ some (assemble (htlc_items hash recipient sender timeout))
    → env.wallet.script_address script_hex ≡ some t.from
    → (built_bytes (htlc env hash_hex recipient_hex sender_hex timeout)
        ≡ ok (assemble (htlc_items hash recipient sender timeout)))
      × (let claim = spending t script_hex (sig_hex ∷ preimage_hex ∷ one_hex ∷ []) in
          eval_script env claim
          ≡ some (
              if fits sig && fits preimage
              then claimed
                  (str_eq hash (env.crypto.sha256 preimage))
                  (verifies env (signing_bytes env claim) recipient sig)
              else err ScriptError.witness_item))
      × (let refund = spending t script_hex (sig_hex ∷ empty_hex ∷ []) in
          eval_script env refund
          ≡ some (
              if fits sig
              then verdict (verifies env (signing_bytes env refund) sender sig) (capped timeout) 1
              else err ScriptError.witness_item))
unfolding code_size items_valid item_valid
htlc-spends env t script_hex hash_hex recipient_hex sender_hex sig_hex preimage_hex one_hex
      empty_hex hash recipient sender sig preimage timeout hash_ok recipient_ok sender_ok sig_ok
      preimage_ok one_ok empty_ok parts sha_fits small script_ok owner =
    let items = htlc_items hash recipient sender timeout in
    let claim = spending t script_hex (sig_hex ∷ preimage_hex ∷ one_hex ∷ []) in
    let refund = spending t script_hex (sig_hex ∷ empty_hex ∷ []) in
    let size : code_size items ≤ max_script_bytes =
      omega (arith, uint_item-length timeout, parts) in
    let built = λ (msg : Str).
      run_script-Built env msg (htlc env hash_hex recipient_hex sender_hex timeout) items
        (htlc-Built env msg hash_hex recipient_hex sender_hex timeout hash_ok recipient_ok sender_ok
          parts)
        (htlc-valid hash recipient sender timeout parts) refl size in
    let loads = λ (args : List Str) (few : length args ≤ max_script_witness).
      eval_script-spending env t script_hex (assemble items) args script_ok owner
        (assemble-some items refl) (omega (arith, assemble-le items, size)) few in
    (
      (built []).0,
      loads (sig_hex ∷ preimage_hex ∷ one_hex ∷ []) (omega arith)
          ∙ rw (push_claim env sig_ok preimage_ok one_ok) (
              run_loaded-if env (signing_bytes env claim) (assemble items)
                (fits sig && fits preimage) (with_witness ((1 ∷ []) ∷ preimage ∷ sig ∷ [])) _
                (ap finished ((built (signing_bytes env claim)).1 _)
                  ∙ htlc-claim env (signing_bytes env claim) hash recipient sender preimage sig
                      timeout (omega (arith, parts)) (omega (arith, parts)) sha_fits)),
      loads (sig_hex ∷ empty_hex ∷ []) (omega arith)
          ∙ rw (push_refund env sig_ok empty_ok) (
              run_loaded-if env (signing_bytes env refund) (assemble items) (fits sig)
                (with_witness ([] ∷ sig ∷ [])) _
                (ap finished ((built (signing_bytes env refund)).1 _)
                  ∙ htlc-refund env (signing_bytes env refund) hash recipient sender sig timeout
                      (omega (arith, parts)) small)),
    )
