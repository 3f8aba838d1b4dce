-- ===== src/Core/Script/Items.antt =====
-- core/scriptbuild.go and core/script.go: a predicate as the list of what the builder was given.
pub mod Steps
use dnas.Base.{
  ℕ, zero, suc, ◌+◌, ◌*◌, ◌/◌, ◌%◌, ◌≤◌, ◌<◌, ltb, leb, ◌==◌, if◌then◌else◌, Bool, true, false, not,
  ◌&&◌, Option, some, is_empty, List, [], ◌∷◌, ◌++◌, length, take, drop, ◌≡◌, refl, ap, sym, arith,
  inl, inr, Bool-cases, length-append, take-length-append, drop-length-append,
}
use dnas.Base.Str.{Str}
use dnas.Base.Result.{Result, ok, err, ◌>>=◌, ◌>>◌, fail_if, Result-cases}
use dnas.Core.Env.{Env}
use dnas.Core.Script.{
  Popped, ScriptError, pop, truthy, Vm, Instr, push, exec, executing, instr_of,
  max_script_item_bytes, max_script_ops, op_push_data,
}
use dnas.Core.Script.Eval.{
  Cursor, push_bytes, push_data, run_if, run_else, run_end_if, run_instr, step, run_loop,
}
use dnas.Core.Script.Build.{push_code}

pub data Item : Type 0 where
  push_item : Str → Item
  op_item : ℕ → Item

unfoldable pub assemble : List Item → Str
unfolding push_code
assemble [] = []
assemble (push_item data_bytes ∷ items) = push_code data_bytes ++ assemble items
assemble (op_item op ∷ items) = op ∷ assemble items

unfoldable pub item_valid : Item → Bool
item_valid (push_item data_bytes) = leb (length data_bytes) max_script_item_bytes
item_valid (op_item op) = ltb op_push_data op

unfoldable pub items_valid : List Item → Bool
unfolding item_valid
items_valid [] = true
items_valid (item ∷ items) = item_valid item && items_valid items

module _ (env : Env) (msg : Str) where
  unfoldable pub run_item : Item → List Bool → Vm → Result ScriptError (List Bool × Vm)
  unfolding push run_instr instr_of executing
  run_item (push_item data_bytes) branches v =
      (if executing branches then push data_bytes v else ok v) >>= λ v'. ok (branches, v')
  run_item (op_item op) branches v =
      run_instr env msg (instr_of op) [] branches v >>= λ c. ok (c.branches, c.vm)

  unfoldable pub step_item : Item → List Bool → Vm → Result ScriptError (List Bool × Vm)
  unfolding run_item
  step_item item branches v =
      fail_if (ltb max_script_ops (v.ops + 1)) ScriptError.too_many_ops
      >> run_item item branches (record v { ops = v.ops + 1 })

  unfoldable pub run_items : List Item → List Bool → Vm → Result ScriptError Vm
  unfolding step_item
  run_items [] branches v = fail_if (not (is_empty branches)) ScriptError.unterminated_if >> ok v
  run_items (item ∷ items) branches v = step_item item branches v >>= λ p. run_items items p.0 p.1
