-- ===== src/Core/Script/Items/Steps.antt =====
-- core/script.go: the loop on the code of a list of items, one item a round.
use dnas.Base.{
  ℕ, zero, suc, ◌+◌, ◌*◌, ◌/◌, ◌%◌, ◌≤◌, ◌<◌, ltb, leb, if◌then◌else◌, Bool, true, false, some,
  List, [], ◌∷◌, ◌++◌, length, ◌≡◌, refl, arith, inl, inr, Bool-cases, length-append,
  take-length-append, drop-length-append,
}
use dnas.Base.Str.{Str}
use dnas.Base.Result.{Result, ok, err, ◌>>=◌, ◌>>◌, fail_if}
use dnas.Core.Env.{Env}
use dnas.Core.Script.{
  Popped, ScriptError, pop, truthy, Vm, Instr, push, exec, executing, instr_of,
  max_script_item_bytes, max_script_ops, op_push_data,
}
use dnas.Core.Script.Eval.{
  Cursor, push_bytes, push_data, run_if, run_else, run_end_if, run_instr, step, run_loop,
}
use dnas.Core.Script.Build.{push_code}
use dnas.Core.Script.Items.{
  Item, push_item, op_item, assemble, item_valid, items_valid, run_item, run_items, step_item,
}

push_code-short :
    (data_bytes : Str)
    → ltb (length data_bytes) op_push_data ≡ true
    → push_code data_bytes ≡ (length data_bytes ∷ data_bytes)
unfolding push_code
push_code-short data_bytes short = rw short refl

push_code-long :
    (data_bytes : Str)
    → ltb (length data_bytes) op_push_data ≡ false
    → push_code data_bytes
      ≡ (op_push_data ∷ length data_bytes / 256 % 256 ∷ length data_bytes % 256 ∷ data_bytes)
unfolding push_code
push_code-long data_bytes long = rw long refl

pub push_code-some : (data_bytes : Str) → 0 < length (push_code data_bytes)
unfolding push_code
push_code-some data_bytes = ground arith

-- Where the item ends, the rest of the script is next.
abbrev at : Str → Result ScriptError (List Bool × Vm) → Result ScriptError Cursor
at rest (err e) = err e
at rest (ok (branches, v)) = ok (record { rest = rest; branches = branches; vm = v })

at-bind :
    (rest : Str) (branches : List Bool) (r : Result ScriptError Vm)
    → (r >>= λ v. ok (record { rest = rest; branches = branches; vm = v }))
      ≡ at rest (r >>= λ v. ok (branches, v))
at-bind rest branches (err e) = refl
at-bind rest branches (ok v) = refl

push_bytes-append :
    (data_bytes rest : Str) (past : ScriptError) (branches : List Bool) (v : Vm)
    → push_bytes (length data_bytes) past (data_bytes ++ rest) branches v
      ≡ at rest
          ((if executing branches then push data_bytes v else ok v) >>= λ v'. ok (branches, v'))
unfolding push_bytes executing
push_bytes-append data_bytes rest past branches v =
    let fits : ltb (length (data_bytes ++ rest)) (length data_bytes) ≡ false =
      ground (arith, length-append data_bytes rest) in
    rw (push_bytes, fits, take-length-append data_bytes rest, drop-length-append data_bytes rest)
      (at-bind rest branches (if executing branches then push data_bytes v else ok v))

abbrev takes_no_bytes : Instr → Bool
takes_no_bytes (Instr.direct n) = false
takes_no_bytes Instr.push_data = false
takes_no_bytes Instr.op_if = true
takes_no_bytes Instr.op_else = true
takes_no_bytes Instr.op_end_if = true
takes_no_bytes (Instr.operation op) = true

abbrev seen_by : Cursor → List Bool × Vm
seen_by c = (c.branches, c.vm)

at-cond :
    (rest : Str) (branches : List Bool) (r : Popped Str)
    → (r >>= λ cond. ok (record { rest = rest; branches = truthy cond.0 ∷ branches; vm = cond.1 }))
      ≡ at rest (
          (r >>= λ cond.
          ok (record { rest = []; branches = truthy cond.0 ∷ branches; vm = cond.1 }))
          >>= λ c. ok (seen_by c))
at-cond rest branches (err e) = refl
at-cond rest branches (ok cond) = refl

at-run_if :
    (rest : Str) (branches : List Bool) (v : Vm)
    → run_if rest branches v ≡ at rest (run_if [] branches v >>= λ c. ok (seen_by c))
unfolding run_if
at-run_if rest branches v = elim (Bool-cases (executing branches)) [
  | inl e ↦ rw (run_if, e) (at-cond rest branches (pop v))
  | inr e ↦ rw (run_if, e) refl
]

at-guard :
    (rest : Str) (c : Bool) (e : ScriptError) (x : Result ScriptError Cursor)
    (y : Result ScriptError (List Bool × Vm))
    → x ≡ at rest y
    → (fail_if c e >> x) ≡ at rest (fail_if c e >> y)
at-guard rest true e x y h = refl
at-guard rest false e x y h = h

at-run_else :
    (rest : Str) (branches : List Bool) (v : Vm)
    → run_else rest branches v ≡ at rest (run_else [] branches v >>= λ c. ok (seen_by c))
unfolding run_else
at-run_else rest [] v = refl
at-run_else rest (arm ∷ outer) v = refl

at-run_end_if :
    (rest : Str) (branches : List Bool) (v : Vm)
    → run_end_if rest branches v ≡ at rest (run_end_if [] branches v >>= λ c. ok (seen_by c))
at-run_end_if rest [] v = refl
at-run_end_if rest (arm ∷ outer) v = refl

at-seen :
    (rest : Str) (branches : List Bool) (r : Result ScriptError Vm)
    → (r >>= λ v. ok (record { rest = rest; branches = branches; vm = v }))
      ≡ at rest (
          (r >>= λ v. ok (record { rest = []; branches = branches; vm = v })) >>= λ c.
          ok (seen_by c))
at-seen rest branches (err e) = refl
at-seen rest branches (ok v) = refl

module _ (env : Env) (msg : Str) where
  at-run_instr :
      (i : Instr) (rest : Str) (branches : List Bool) (v : Vm)
      → takes_no_bytes i ≡ true
      → run_instr env msg i rest branches v
        ≡ at rest (run_instr env msg i [] branches v >>= λ c. ok (seen_by c))
  unfolding run_instr
  at-run_instr (Instr.direct n) rest branches v no_bytes = absurd cc
  at-run_instr Instr.push_data rest branches v no_bytes = absurd cc
  at-run_instr Instr.op_if rest branches v no_bytes = at-run_if rest branches v
  at-run_instr Instr.op_else rest branches v no_bytes = at-run_else rest branches v
  at-run_instr Instr.op_end_if rest branches v no_bytes = at-run_end_if rest branches v
  at-run_instr (Instr.operation op) rest branches v no_bytes =
      at-seen rest branches (if executing branches then exec env msg op v else ok v)

  instr_of-no_bytes : (op : ℕ) → ltb op_push_data op ≡ true → takes_no_bytes (instr_of op) ≡ true
  unfolding instr_of
  instr_of-no_bytes op h = ground arith

  instr_of-direct : (n : ℕ) → ltb n op_push_data ≡ true → instr_of n ≡ Instr.direct n
  unfolding instr_of
  instr_of-direct n h = rw h refl

  step-push :
      (data_bytes rest : Str) (branches : List Bool) (v : Vm)
      → ltb (length data_bytes) op_push_data ≡ true
      → step env msg (length data_bytes) (data_bytes ++ rest) branches v
        ≡ at rest (step_item env msg (push_item data_bytes) branches v)
  unfolding step run_instr step_item run_item
  step-push data_bytes rest branches v short =
      at-guard rest (ltb max_script_ops (v.ops + 1)) ScriptError.too_many_ops _ _ (
        rw (instr_of-direct (length data_bytes) short) (
          push_bytes-append data_bytes rest ScriptError.push_past_end branches
            (record v { ops = v.ops + 1 })))

  two_bytes : (n : ℕ) → leb n max_script_item_bytes ≡ true → n / 256 % 256 * 256 + n % 256 ≡ n
  two_bytes n small = ground arith

  step-push_data :
      (data_bytes rest : Str) (branches : List Bool) (v : Vm)
      → item_valid (push_item data_bytes) ≡ true
      → step env msg op_push_data
          (length data_bytes / 256 % 256 ∷ length data_bytes % 256 ∷ (data_bytes ++ rest))
          branches
          v
        ≡ at rest (step_item env msg (push_item data_bytes) branches v)
  unfolding step run_instr step_item run_item item_valid instr_of push_data
  step-push_data data_bytes rest branches v valid =
      at-guard rest (ltb max_script_ops (v.ops + 1)) ScriptError.too_many_ops _ _ (
        rw (two_bytes (length data_bytes) valid) (
          push_bytes-append data_bytes rest ScriptError.push_past_end branches
            (record v { ops = v.ops + 1 })))

  step-op :
      (op : ℕ) (rest : Str) (branches : List Bool) (v : Vm)
      → item_valid (op_item op) ≡ true
      → step env msg op rest branches v ≡ at rest (step_item env msg (op_item op) branches v)
  unfolding step step_item run_item item_valid
  step-op op rest branches v valid =
      at-guard rest (ltb max_script_ops (v.ops + 1)) ScriptError.too_many_ops _ _ (
        at-run_instr (instr_of op) rest branches (record v { ops = v.ops + 1 })
          (instr_of-no_bytes op valid))

  run_loop-next :
      (n b : ℕ) (more rest : Str) (branches : List Bool) (v : Vm)
      (r : Result ScriptError (List Bool × Vm)) (next : List Bool × Vm → Result ScriptError Vm)
      → step env msg b more branches v ≡ at rest r
      → ((p : List Bool × Vm) → run_loop env msg n rest p.0 p.1 ≡ some (next p))
      → run_loop env msg (suc n) (b ∷ more) branches v ≡ some (r >>= next)
  unfolding run_loop
  run_loop-next n b more rest branches v (err e) next stepped after = rw (run_loop, stepped) refl
  run_loop-next n b more rest branches v (ok p) next stepped after =
      rw (run_loop, stepped) (after p)

  -- On the bytes of a valid predicate, with fuel of at least their number, the loop does what the
  -- items say, one item a round.
  pub run_loop-assemble :
      (n : ℕ) (items : List Item) (branches : List Bool) (v : Vm)
      → items_valid items ≡ true
      → length (assemble items) ≤ n
      → run_loop env msg n (assemble items) branches v ≡ some (run_items env msg items branches v)
  unfolding run_loop assemble items_valid run_items push_code
  run_loop-assemble n [] branches v valid fits = refl
  run_loop-assemble zero (op_item op ∷ items) branches v valid fits = ground arith
  run_loop-assemble (suc n) (op_item op ∷ items) branches v valid fits =
      run_loop-next n op (assemble items) (assemble items) branches v
        (step_item env msg (op_item op) branches v) (λ p. run_items env msg items p.0 p.1)
        (step-op op (assemble items) branches v (ground arith))
        (λ p. run_loop-assemble n items p.0 p.1 (ground arith) (ground arith))
  run_loop-assemble zero (push_item data_bytes ∷ items) branches v valid fits =
      ground
        (arith, push_code-some data_bytes, length-append (push_code data_bytes) (assemble items))
  run_loop-assemble (suc n) (push_item data_bytes ∷ items) branches v valid fits =
      let room = length-append (push_code data_bytes) (assemble items) in
      let next : (p : List Bool × Vm)
          → run_loop env msg n (assemble items) p.0 p.1 ≡ some (run_items env msg items p.0 p.1) =
        λ p.
          run_loop-assemble n items p.0 p.1 (ground arith)
            (ground (arith, room, push_code-some data_bytes)) in
      elim (Bool-cases (ltb (length data_bytes) op_push_data)) [
        | inl short ↦ rw (push_code-short data_bytes short) (
            run_loop-next n (length data_bytes) (data_bytes ++ assemble items) (assemble items)
              branches v (step_item env msg (push_item data_bytes) branches v)
              (λ p. run_items env msg items p.0 p.1)
              (step-push data_bytes (assemble items) branches v short) next)
        | inr long ↦ rw (push_code-long data_bytes long) (
            run_loop-next n op_push_data
              (length data_bytes / 256 % 256
                ∷ length data_bytes % 256
                ∷ (data_bytes ++ assemble items))
              (assemble items) branches v (step_item env msg (push_item data_bytes) branches v)
              (λ p. run_items env msg items p.0 p.1)
              (step-push_data data_bytes (assemble items) branches v (ground arith)) next)
      ]
