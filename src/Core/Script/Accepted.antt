-- ===== src/Core/Script/Accepted.antt =====
-- core/script.go: what `evalScript` returns.
use dnas.Base.{
  ◌==◌, ◌||◌, ltb, length, not, arith, ◌*◌, ◌^◌, ◌≤◌, ltb, true, false, not, Option, none, some,
  is_some, List, [], ◌∷◌, length, ◌≡◌, refl, sym, ap, arith, inl, inr, Bool-cases,
}
use dnas.Base.Str.{Str, str_eq, str_eq→eq}
use dnas.Base.Result.{Result, ok, err, >>=-eq-ok, fail_if-eq-ok, or_fail, or_fail-ok}
use dnas.Core.Block.{max_script_sig_checks, verify_ops, auth_ops}
use dnas.Core.Env.{Env}
use dnas.Core.Tx.{Transaction, ScriptAuth, is_coinbase, is_vault, is_script}
use dnas.Core.Tx.Codec.{signing_bytes}
use dnas.Core.Script.{
  ScriptError, Vm, push, max_script_item_bytes, max_script_bytes, max_script_witness, truthy,
}
use dnas.Core.Script.Bounds.{ok-injective, run_loop-returns}
use dnas.Core.Script.Limits.{IsBounded, items_fit, push-IsBounded}
use dnas.Core.Script.Eval.{
  script_address, run_script, load_script, eval_script, push_witness, ScriptResult, initial_vm,
  finished, accepted_stack, run_loaded, eval_auth,
}
use dnas.Core.Script.Run.{ended-ok, run_loop-IsBounded}

some-injective : {a b : Result ScriptError ScriptResult} → some a ≡ some b → a ≡ b
some-injective h = cc

push_witness-IsBounded :
    (env : Env) (args : List Str) (v v' : Vm)
    → push_witness env args v ≡ ok v'
    → IsBounded v
    → IsBounded v'
unfolding push_witness
push_witness-IsBounded env [] v v' h bounded = rw (sym (ok-injective h)) bounded
push_witness-IsBounded env (a ∷ args) v v' h bounded =
    let (item, more, decoded) =
      >>=-eq-ok (or_fail (env.crypto.hex_decode a) ScriptError.witness_item) _ h in
    let (short, go) =
      fail_if-eq-ok (ltb max_script_item_bytes (length item)) ScriptError.witness_item _ more in
    let (pushed, rest, first) = >>=-eq-ok (push item v) _ go in
    push_witness-IsBounded env args pushed v' rest (push-IsBounded item v pushed first bounded)

pub run_script-returns :
    (env : Env) (msg script : Str) (v : Vm) → is_some (run_script env msg script v) ≡ true
unfolding run_script
run_script-returns env msg script v = elim (Bool-cases (ltb max_script_bytes (length script))) [
  | inl e ↦ rw e refl
  | inr e ↦ rw e (run_loop-returns env msg (length script) script [] v (ground arith))
]

finished-returns :
    (o : Option (Result ScriptError Vm)) → is_some o ≡ true → is_some (finished o) ≡ true
finished-returns none h = h
finished-returns (some (err e)) h = refl
finished-returns (some (ok v)) h = refl

run_loaded-returns :
    (env : Env) (msg : Str) (loaded : Result ScriptError (Str × Vm))
    → is_some (run_loaded env msg loaded) ≡ true
unfolding run_loaded
run_loaded-returns env msg (err e) = refl
run_loaded-returns env msg (ok (raw, v)) =
    finished-returns (run_script env msg raw v) (run_script-returns env msg raw v)

eval_auth-returns :
    (env : Env) (t : Transaction) (auth : Option ScriptAuth) → is_some (eval_auth env t auth) ≡ true
unfolding eval_auth
eval_auth-returns env t none = refl
eval_auth-returns env t (some auth) =
    run_loaded-returns env (signing_bytes env t) (load_script env t.from auth)

-- Every evaluation of a script ends, with a result or an error: the fuel of the loop, the length of
-- the script, is enough.
pub eval_script-returns : (env : Env) (t : Transaction) → is_some (eval_script env t) ≡ true
unfolding eval_script
eval_script-returns env t = eval_auth-returns env t t.script

accepted_stack-limits :
    (stack : List Str) (v : Vm) (r : ScriptResult)
    → accepted_stack stack v ≡ ok r
    → IsBounded v
    → (r.result_checks ≤ max_script_sig_checks) × (r.result_height ≤ 2 ^ 31)
unfolding IsBounded accepted_stack
accepted_stack-limits [] v r h bounded = absurd cc
accepted_stack-limits (a ∷ b ∷ stack) v r h bounded = absurd cc
accepted_stack-limits (top ∷ []) v r h bounded =
    let (true_top, done) = fail_if-eq-ok (not (truthy top)) ScriptError.evaluated_to_false _ h in
    rw (sym (ok-injective done)) (bounded.3, bounded.4)

pub initial-IsBounded : IsBounded initial_vm
unfolding IsBounded items_fit
initial-IsBounded = ground arith

load_script-IsBounded :
    (env : Env) (sender : Str) (auth : ScriptAuth) (raw : Str) (v : Vm)
    → load_script env sender auth ≡ ok (raw, v)
    → IsBounded v
unfolding load_script
load_script-IsBounded env sender auth raw v h =
    let (derived, h₁, _) = >>=-eq-ok (script_address env auth.script) _ h in
    let (_, h₂) = fail_if-eq-ok (not (str_eq derived sender)) ScriptError.wrong_sender _ h₁ in
    let (raw', h₃, _) =
      >>=-eq-ok (or_fail (env.crypto.hex_decode auth.script) ScriptError.not_hex) _ h₂ in
    let (_, h₄) =
      fail_if-eq-ok (ltb max_script_witness (length auth.args)) ScriptError.witness_too_long _ h₃ in
    let (v', done, pushed) = >>=-eq-ok (push_witness env auth.args initial_vm) _ h₄ in
    rw (sym (ap (λ p. p.1) (ok-injective done)))
      (push_witness-IsBounded env auth.args initial_vm v' pushed initial-IsBounded)

run_script-IsBounded :
    (env : Env) (msg script : Str) (v v' : Vm)
    → run_script env msg script v ≡ some (ok v')
    → IsBounded v
    → IsBounded v'
unfolding run_script
run_script-IsBounded env msg script v v' h bounded =
    elim (Bool-cases (ltb max_script_bytes (length script))) [
      | inl e ↦ absurd (ended-ok ScriptError.script_too_large v' (rw e at h))
      | inr e ↦ run_loop-IsBounded env msg (length script) script [] v v' (rw e at h) bounded
    ]

finished-limits :
    (o : Option (Result ScriptError Vm)) (r : ScriptResult)
    → finished o ≡ some (ok r)
    → ((v : Vm) → o ≡ some (ok v) → IsBounded v)
    → (r.result_checks ≤ max_script_sig_checks) × (r.result_height ≤ 2 ^ 31)
finished-limits none r h bounded = absurd cc
finished-limits (some (err e)) r h bounded = absurd cc
finished-limits (some (ok v)) r h bounded =
    accepted_stack-limits v.stack v r (some-injective h) (bounded v refl)

run_loaded-limits :
    (env : Env) (msg : Str) (loaded : Result ScriptError (Str × Vm)) (r : ScriptResult)
    → run_loaded env msg loaded ≡ some (ok r)
    → ((raw : Str) (v : Vm) → loaded ≡ ok (raw, v) → IsBounded v)
    → (r.result_checks ≤ max_script_sig_checks) × (r.result_height ≤ 2 ^ 31)
unfolding run_loaded
run_loaded-limits env msg (err e) r h bounded = absurd cc
run_loaded-limits env msg (ok (raw, v)) r h bounded =
    finished-limits (run_script env msg raw v) r h
      (λ v' ran. run_script-IsBounded env msg raw v v' ran (bounded raw v refl))

eval_auth-limits :
    (env : Env) (t : Transaction) (auth : Option ScriptAuth) (r : ScriptResult)
    → eval_auth env t auth ≡ some (ok r)
    → (r.result_checks ≤ max_script_sig_checks) × (r.result_height ≤ 2 ^ 31)
unfolding eval_auth
eval_auth-limits env t none r h = absurd cc
eval_auth-limits env t (some auth) r h =
    run_loaded-limits env (signing_bytes env t) (load_script env t.from auth) r h
      (load_script-IsBounded env t.from auth)

-- A script that is accepted needs a height of at most 2 ^ 31; and if the transaction is no coinbase
-- and carries a script, but no multisig or vault, then twice the signature checks that the script
-- ran are within the operations the block's budget is charged for the transaction.
pub eval_script-verify_ops :
    (env : Env) (t : Transaction) (r : ScriptResult)
    → eval_script env t ≡ some (ok r)
    → is_coinbase t ≡ false
    → t.multisig ≡ none
    → is_vault t ≡ false
    → is_script t ≡ true
    → (2 * r.result_checks ≤ verify_ops t) × (r.result_height ≤ 2 ^ 31)
unfolding eval_script verify_ops auth_ops
eval_script-verify_ops env t r h plain single no_vault script =
    let (checks, height) = eval_auth-limits env t t.script r h in
    rw (plain, single, no_vault, script) (ground (arith, checks), height)

script_address-ok :
    (env : Env) (script_hex address : Str)
    → script_address env script_hex ≡ ok address
    → env.wallet.script_address script_hex ≡ some address
unfolding script_address
script_address-ok env script_hex address h =
    let (raw, more, _) =
      >>=-eq-ok (or_fail (env.crypto.hex_decode script_hex) ScriptError.not_hex) _ h in
    let (_, done) =
      fail_if-eq-ok (length raw == 0 || ltb max_script_bytes (length raw)) ScriptError.script_size _
        more in
    or_fail-ok (env.wallet.script_address script_hex) ScriptError.not_hex done

pub load_script-owner :
    (env : Env) (sender : Str) (auth : ScriptAuth) (loaded : Str × Vm)
    → load_script env sender auth ≡ ok loaded
    → env.wallet.script_address auth.script ≡ some sender
unfolding load_script
load_script-owner env sender auth loaded h =
    let (derived, h₁, address) = >>=-eq-ok (script_address env auth.script) _ h in
    let (same, _) = fail_if-eq-ok (not (str_eq derived sender)) ScriptError.wrong_sender _ h₁ in
    rw (sym (str_eq→eq derived sender (ground (arith, same))))
      (script_address-ok env auth.script derived address)
