-- ===== src/Core/Script/Authorized.antt =====
-- core/script.go: what an accepted run of `evalScript` has shown.
use dnas.Base.{
  ltb, length, not, true, false, Option, none, some, List, [], ◌∷◌, ◌≡◌, refl, sym, ap, arith,
}
use dnas.Base.Str.{Str, str_eq}
use dnas.Base.Result.{Result, ok, err, >>=-eq-ok, fail_if-eq-ok, or_fail, or_fail-ok}
use dnas.Core.Env.{Env}
use dnas.Core.Tx.{Transaction, ScriptAuth}
use dnas.Core.Tx.Codec.{signing_bytes}
use dnas.Core.Script.{ScriptError, Vm, max_script_witness, truthy}
use dnas.Core.Script.Bounds.{ok-injective}
use dnas.Core.Script.Accepted.{load_script-owner}
use dnas.Core.Script.Eval.{
  script_address, run_script, load_script, eval_script, push_witness, ScriptResult, initial_vm,
  finished, accepted_stack, run_loaded, eval_auth,
}

-- The script hashes to the sender, the witness loads, and the run on it ends without an error and
-- leaves one item, which is true.
pub record IsAuthorized (env : Env) (t : Transaction) (auth : ScriptAuth) : Type 0 where
  pub script : Str
  pub loaded : Vm
  pub ended : Vm
  pub top : Str
  pub decoded : env.crypto.hex_decode auth.script ≡ some script
  pub owner : env.wallet.script_address auth.script ≡ some t.from
  pub witness : push_witness env auth.args initial_vm ≡ ok loaded
  pub few_args : ltb max_script_witness (length auth.args) ≡ false
  pub ran : run_script env (signing_bytes env t) script loaded ≡ some (ok ended)
  pub clean : ended.stack ≡ top ∷ []
  pub truth : truthy top ≡ true

accepted_stack-ok :
    (stack : List Str) (v : Vm) (r : ScriptResult)
    → accepted_stack stack v ≡ ok r
    → (top : Str) × (stack ≡ top ∷ []) × (truthy top ≡ true)
unfolding accepted_stack
accepted_stack-ok [] v r h = absurd cc
accepted_stack-ok (a ∷ b ∷ stack) v r h = absurd cc
accepted_stack-ok (top ∷ []) v r h =
    let (true_top, _) = fail_if-eq-ok (not (truthy top)) ScriptError.evaluated_to_false _ h in
    (top, refl, ground (arith, true_top))

finished-ok :
    (o : Option (Result ScriptError Vm)) (r : ScriptResult)
    → finished o ≡ some (ok r)
    → (v : Vm) × (o ≡ some (ok v)) × (top : Str) × (v.stack ≡ top ∷ []) × (truthy top ≡ true)
finished-ok none r h = absurd cc
finished-ok (some (err e)) r h = absurd cc
finished-ok (some (ok v)) r h =
    let (top, clean, truth) = accepted_stack-ok v.stack v r cc in (v, refl, top, clean, truth)

load_script-ok :
    (env : Env) (sender : Str) (auth : ScriptAuth) (raw : Str) (v : Vm)
    → load_script env sender auth ≡ ok (raw, v)
    → (env.crypto.hex_decode auth.script ≡ some raw)
      × (push_witness env auth.args initial_vm ≡ ok v)
      × (ltb max_script_witness (length auth.args) ≡ false)
unfolding load_script
load_script-ok env sender auth raw v h =
    let (derived, h₁, _) = >>=-eq-ok (script_address env auth.script) _ h in
    let (_, h₂) = fail_if-eq-ok (not (str_eq derived sender)) ScriptError.wrong_sender _ h₁ in
    let (raw', h₃, decoded) =
      >>=-eq-ok (or_fail (env.crypto.hex_decode auth.script) ScriptError.not_hex) _ h₂ in
    let (few, h₄) =
      fail_if-eq-ok (ltb max_script_witness (length auth.args)) ScriptError.witness_too_long _ h₃ in
    let (v', done, pushed) = >>=-eq-ok (push_witness env auth.args initial_vm) _ h₄ in
    let same = ok-injective done in
    (
      rw (sym (ap (λ p. p.0) same))
          (or_fail-ok (env.crypto.hex_decode auth.script) ScriptError.not_hex decoded),
      rw (sym (ap (λ p. p.1) same)) pushed,
      few,
    )

run_loaded-IsAuthorized :
    (env : Env) (t : Transaction) (auth : ScriptAuth) (r : ScriptResult)
    (loaded : Result ScriptError (Str × Vm))
    → load_script env t.from auth ≡ loaded
    → run_loaded env (signing_bytes env t) loaded ≡ some (ok r)
    → IsAuthorized env t auth
unfolding run_loaded
run_loaded-IsAuthorized env t auth r (err e) _ h = absurd cc
run_loaded-IsAuthorized env t auth r (ok (raw, v)) load h =
    let (decoded, witness, few) = load_script-ok env t.from auth raw v load in
    let (ended, ran, top, clean, truth) =
      finished-ok (run_script env (signing_bytes env t) raw v) r h in
    record {
      script = raw;
      loaded = v;
      ended = ended;
      top = top;
      decoded = decoded;
      owner = load_script-owner env t.from auth (raw, v) load;
      witness = witness;
      few_args = few;
      ran = ran;
      clean = clean;
      truth = truth;
    }

pub eval_script-IsAuthorized :
    (env : Env) (t : Transaction) (auth : ScriptAuth) (r : ScriptResult)
    → t.script ≡ some auth
    → eval_script env t ≡ some (ok r)
    → IsAuthorized env t auth
unfolding eval_script eval_auth
eval_script-IsAuthorized env t auth r carried h =
    run_loaded-IsAuthorized env t auth r (load_script env t.from auth) refl (rw carried at h)
