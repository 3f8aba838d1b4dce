-- ===== src/Core/Script/Verify.antt =====
-- core/script.go: what the rest of package core asks of a script. These fill the interpreter's
-- interface of an environment.
use dnas.Base.{true, ℕ, ◌≡◌, refl, ltb, if◌then◌else◌, Bool, false, Option, none, some}
use dnas.Base.Result.{Result, ok, err}
use dnas.Core.Tx.{Transaction, HtlcScript, MultisigScript, ScriptAuth, VaultScript, is_script}
use dnas.Core.Tx.Auth.{verify_sender, verify_by}
use dnas.Core.Script.Authorized.{IsAuthorized, eval_script-IsAuthorized}
use dnas.Core.Tx.Errors.{TxError}
use dnas.Core.Tx.Shape.{Check}
use dnas.Core.Env.{Env}
use dnas.Core.Script.{ScriptError}
use dnas.Core.Script.Eval.{ScriptResult, eval_script}

abbrev as_check : Option (Result ScriptError ScriptResult) → Check
as_check none = err TxError.not_authorized
as_check (some (err e)) = err TxError.not_authorized
as_check (some (ok r)) = ok tt

-- `verifyScript`, its errors told apart from no other refusal of an authorization.
unfoldable pub verify_script : Env → Transaction → Check
verify_script env t = as_check (eval_script env t)

abbrev height_of : Option (Result ScriptError ScriptResult) → Option ℕ
height_of none = none
height_of (some (err e)) = none
height_of (some (ok r)) = some r.result_height

-- `ScriptMinHeight`
unfoldable pub script_min_height : Env → Transaction → Option ℕ
script_min_height env t = height_of (eval_script env t)

abbrev below : ℕ → Option ℕ → Bool
below height none = false
below height (some least) = ltb height least

-- `ScriptNotReady`
unfoldable pub script_not_ready : Env → Transaction → ℕ → Bool
unfolding script_min_height
script_not_ready env t height =
    if is_script t then below height (script_min_height env t) else false

-- An environment with the interpreter in place.
unfoldable pub with_scripts : Env → Env
unfolding verify_script script_not_ready
with_scripts env = record env {
  scripts = record { verify_script = verify_script env; script_not_ready = script_not_ready env };
}

as_check-ok :
    (o : Option (Result ScriptError ScriptResult))
    → as_check o ≡ ok tt
    → (r : ScriptResult) × (o ≡ some (ok r))
as_check-ok none h = absurd cc
as_check-ok (some (err e)) h = absurd cc
as_check-ok (some (ok r)) h = (r, refl)

verify_by-script :
    (env : Env) (t : Transaction) (m : Option MultisigScript) (s : Option HtlcScript)
    (v : Option VaultScript)
    → m ≡ none
    → s ≡ none
    → v ≡ none
    → is_script t ≡ true
    → verify_by env t m s v ≡ ok tt
    → env.scripts.verify_script t ≡ ok tt
unfolding verify_by
verify_by-script env t none none none _ _ _ script h = rw script at h
verify_by-script env t (some m) s v e _ _ script h = absurd cc
verify_by-script env t none (some s) v _ e _ script h = absurd cc
verify_by-script env t none none (some v) _ _ e script h = absurd cc

-- With the interpreter in place, a transaction that carries a script, and neither a multisig nor an
-- HTLC nor a vault, passes the check of its sender only if the script hashes to the sender, its witness
-- of at most so many items loads, and the run on that witness, over the transaction's signing bytes,
-- ends without an error and leaves exactly one item on the stack, which is true.
pub verify_sender-script :
    (env : Env) (t : Transaction) (auth : ScriptAuth)
    → t.script ≡ some auth
    → t.multisig ≡ none
    → t.htlc ≡ none
    → t.vault ≡ none
    → verify_sender (with_scripts env) t ≡ ok tt
    → IsAuthorized env t auth
unfolding verify_sender with_scripts verify_script
verify_sender-script env t auth carried single no_htlc no_vault h =
    let (r, accepted) = as_check-ok (eval_script env t) (
      verify_by-script (with_scripts env) t t.multisig t.htlc t.vault single no_htlc no_vault
        (rw carried refl) h) in
    eval_script-IsAuthorized env t auth r carried accepted
