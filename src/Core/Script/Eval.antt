-- ===== src/Core/Script/Eval.antt =====
-- core/script.go: the loop over a script and `evalScript`. The loop runs on fuel, the length of the
-- script, since every round takes a byte at least: `none` is a loop out of fuel.
use dnas.Base.{
  ℕ, zero, suc, ◌+◌, ◌*◌, ltb, ◌==◌, if◌then◌else◌, Bool, false, not, ◌||◌, Option, none, some,
  List, [], ◌∷◌, length, take, drop, is_empty,
}
use dnas.Base.Str.{Str, str_eq}
use dnas.Base.Result.{Result, ok, err, ◌>>=◌, ◌>>◌, fail_if, or_fail}
use dnas.Core.Tx.{Transaction, ScriptAuth}
use dnas.Core.Tx.Codec.{signing_bytes}
use dnas.Core.Env.{Env}
use dnas.Core.Script.{
  ScriptError, Vm, Instr, push, pop, truthy, exec, executing, instr_of, max_script_bytes,
  max_script_item_bytes, max_script_ops, max_script_witness,
}

-- What a round leaves: the rest of the script, the branches and the machine.
pub record Cursor : Type 0 where
  pub rest : Str
  pub branches : List Bool
  pub vm : Vm

abbrev Round : Type 0
Round = Result ScriptError Cursor

-- A push of the next `n` bytes.
unfoldable pub push_bytes : ℕ → ScriptError → Str → List Bool → Vm → Round
unfolding push executing
push_bytes n past rest branches v =
    fail_if (ltb (length rest) n) past
    >> ((if executing branches then push (take n rest) v else ok v) >>= λ v'.
        ok (record { rest = drop n rest; branches = branches; vm = v' }))

unfoldable pub push_data : Str → List Bool → Vm → Round
unfolding push_bytes
push_data [] branches v = err ScriptError.truncated_pushdata
push_data (hi ∷ []) branches v = err ScriptError.truncated_pushdata
push_data (hi ∷ lo ∷ rest) branches v =
    push_bytes (hi * 256 + lo) ScriptError.push_past_end rest branches v

unfoldable pub run_if : Str → List Bool → Vm → Round
unfolding pop truthy executing
run_if rest branches v =
    if executing branches
    then (pop v >>= λ cond.
        ok (record { rest = rest; branches = truthy cond.0 ∷ branches; vm = cond.1 }))
    else ok (record { rest = rest; branches = false ∷ branches; vm = v })

unfoldable pub run_else : Str → List Bool → Vm → Round
unfolding executing
run_else rest [] v = err ScriptError.else_without_if
run_else rest (arm ∷ outer) v =
    ok (record {
      rest = rest;
      branches = (if executing outer then not arm else arm) ∷ outer;
      vm = v;
    })

abbrev pub run_end_if : Str → List Bool → Vm → Round
run_end_if rest [] v = err ScriptError.end_if_without_if
run_end_if rest (arm ∷ outer) v = ok (record { rest = rest; branches = outer; vm = v })

module _ (env : Env) (msg : Str) where
  unfoldable pub run_instr : Instr → Str → List Bool → Vm → Round
  unfolding push_bytes push_data run_if run_else exec executing
  run_instr (Instr.direct n) rest branches v =
      push_bytes n ScriptError.push_past_end rest branches v
  run_instr Instr.push_data rest branches v = push_data rest branches v
  run_instr Instr.op_if rest branches v = run_if rest branches v
  run_instr Instr.op_else rest branches v = run_else rest branches v
  run_instr Instr.op_end_if rest branches v = run_end_if rest branches v
  run_instr (Instr.operation op) rest branches v =
      (if executing branches then exec env msg op v else ok v) >>= λ v'.
      ok (record { rest = rest; branches = branches; vm = v' })

  -- A round of the loop, at the byte `b`.
  unfoldable pub step : ℕ → Str → List Bool → Vm → Round
  unfolding run_instr instr_of
  step b rest branches v =
      fail_if (ltb max_script_ops (v.ops + 1)) ScriptError.too_many_ops
      >> run_instr (instr_of b) rest branches (record v { ops = v.ops + 1 })

  unfoldable pub run_loop : ℕ → Str → List Bool → Vm → Option (Result ScriptError Vm)
  unfolding step
  run_loop n [] branches v =
      some (fail_if (not (is_empty branches)) ScriptError.unterminated_if >> ok v)
  run_loop zero (b ∷ rest) branches v = none
  run_loop (suc n) (b ∷ rest) branches v = elim (step b rest branches v) [
    | err e ↦ some (err e)
    | ok c ↦ run_loop n c.rest c.branches c.vm
  ]

  -- `run`
  unfoldable pub run_script : Str → Vm → Option (Result ScriptError Vm)
  unfolding run_loop
  run_script script v =
      if ltb max_script_bytes (length script)
      then some (err ScriptError.script_too_large)
      else run_loop (length script) script [] v

pub record ScriptResult : Type 0 where
  pub result_height : ℕ
  pub result_checks : ℕ

-- `ScriptAddress`
unfoldable pub script_address : Env → Str → Result ScriptError Str
script_address env script_hex =
    or_fail (env.crypto.hex_decode script_hex) ScriptError.not_hex >>= λ raw.
    fail_if (length raw == 0 || ltb max_script_bytes (length raw)) ScriptError.script_size
    >> or_fail (env.wallet.script_address script_hex) ScriptError.not_hex

-- The witness goes on as data.
unfoldable pub push_witness : Env → List Str → Vm → Result ScriptError Vm
unfolding push
push_witness env [] v = ok v
push_witness env (a ∷ args) v =
    or_fail (env.crypto.hex_decode a) ScriptError.witness_item >>= λ item.
    fail_if (ltb max_script_item_bytes (length item)) ScriptError.witness_item
    >> (push item v >>= λ v'. push_witness env args v')

-- The end of `evalScript`: exactly one true item.
unfoldable pub accepted_stack : List Str → Vm → Result ScriptError ScriptResult
unfolding truthy
accepted_stack [] v = err ScriptError.stack_not_clean
accepted_stack (top ∷ []) v =
    fail_if (not (truthy top)) ScriptError.evaluated_to_false
    >> ok (record { result_height = v.min_height; result_checks = v.sig_checks })
accepted_stack (a ∷ b ∷ stack) v = err ScriptError.stack_not_clean

abbrev pub finished : Option (Result ScriptError Vm) → Option (Result ScriptError ScriptResult)
finished none = none
finished (some (err e)) = some (err e)
finished (some (ok v)) = some (accepted_stack v.stack v)

abbrev pub initial_vm : Vm
initial_vm = record { stack = []; ops = 0; sig_checks = 0; min_height = 0 }

-- The checks of `evalScript` before the machine runs: the bytes, and the machine that holds the
-- witness.
unfoldable pub load_script : Env → Str → ScriptAuth → Result ScriptError (Str × Vm)
unfolding script_address push_witness
load_script env sender auth = script_address env auth.script >>= λ derived.
    fail_if (not (str_eq derived sender)) ScriptError.wrong_sender
    >> (or_fail (env.crypto.hex_decode auth.script) ScriptError.not_hex >>= λ raw.
        fail_if (ltb max_script_witness (length auth.args)) ScriptError.witness_too_long
        >> (push_witness env auth.args initial_vm >>= λ v. ok (raw, v)))

unfoldable pub run_loaded :
    Env → Str → Result ScriptError (Str × Vm) → Option (Result ScriptError ScriptResult)
unfolding run_script
run_loaded env msg (err e) = some (err e)
run_loaded env msg (ok (raw, v)) = finished (run_script env msg raw v)

unfoldable pub eval_auth :
    Env → Transaction → Option ScriptAuth → Option (Result ScriptError ScriptResult)
unfolding load_script signing_bytes run_loaded
eval_auth env t none = some (err ScriptError.no_script)
eval_auth env t (some auth) = run_loaded env (signing_bytes env t) (load_script env t.from auth)

-- `evalScript`
unfoldable pub eval_script : Env → Transaction → Option (Result ScriptError ScriptResult)
unfolding eval_auth
eval_script env t = eval_auth env t t.script
