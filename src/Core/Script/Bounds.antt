-- ===== src/Core/Script/Bounds.antt =====
-- core/script.go: the loop ends, and the machine stays within its limits.
use dnas.Base.{
  ℕ, zero, suc, ◌+◌, ◌*◌, ◌≤◌, ltb, if◌then◌else◌, Bool, true, is_some, List, [], ◌∷◌, length, take,
  drop, ◌≡◌, refl, ap, sym, arith, inl, inr, Bool-cases,
}
use dnas.Base.Str.{Str}
use dnas.Base.Result.{Result, ok, >>=-eq-ok, fail_if-eq-ok, Result-cases}
use dnas.Core.Env.{Env}
use dnas.Core.Script.{ScriptError, Vm, Instr, push, pop, exec, executing, instr_of, max_script_ops}
use dnas.Core.Script.Eval.{
  Cursor, push_bytes, push_data, run_if, run_else, run_end_if, run_instr, step, run_loop,
}

pub length-drop-le : {A : Type 0} (n : ℕ) (xs : List A) → length (drop n xs) ≤ length xs
length-drop-le zero xs = ground arith
length-drop-le (suc n) [] = ground arith
length-drop-le (suc n) (x ∷ xs) = ground (arith, length-drop-le n xs)

abbrev okay : {A : Type 0} → A → Result ScriptError A
okay a = ok a

pub ok-injective : {A : Type 0} {a b : A} → okay a ≡ okay b → a ≡ b
ok-injective h = cc

module _ (branches : List Bool) (v : Vm) (c : Cursor) where
  push_bytes-rest :
      (n : ℕ) (past : ScriptError) (rest : Str)
      → push_bytes n past rest branches v ≡ ok c
      → length c.rest ≤ length rest
  unfolding push_bytes
  push_bytes-rest n past rest h =
      let pushed = (if executing branches then push (take n rest) v else ok v) in
      let (fits, run) = fail_if-eq-ok (ltb (length rest) n) past _ h in
      let (v', done, first) = >>=-eq-ok pushed _ run in ground (arith, length-drop-le n rest)

  push_data-rest : (rest : Str) → push_data rest branches v ≡ ok c → length c.rest ≤ length rest
  unfolding push_data
  push_data-rest [] h = cc
  push_data-rest (hi ∷ []) h = cc
  push_data-rest (hi ∷ lo ∷ rest) h =
      ground (arith, push_bytes-rest (hi * 256 + lo) ScriptError.push_past_end rest h)

  run_if-rest : (rest : Str) → run_if rest branches v ≡ ok c → c.rest ≡ rest
  unfolding run_if
  run_if-rest rest h = elim (Bool-cases (executing branches)) [
    | inl e ↦
        let (cond, done, popped) = >>=-eq-ok (pop v) _ (rw e at h) in
        ap (λ c. c.rest) (sym (ok-injective done))
    | inr e ↦ ap (λ c. c.rest) (sym (ok-injective (rw e at h)))
  ]

pub run_else-rest :
    (rest : Str) (branches : List Bool) (v : Vm) (c : Cursor)
    → run_else rest branches v ≡ ok c
    → (c.rest ≡ rest) × (c.vm ≡ v)
unfolding run_else
run_else-rest rest [] v c h = cc
run_else-rest rest (arm ∷ outer) v c h =
    let same = ok-injective h in (ap (λ c. c.rest) (sym same), ap (λ c. c.vm) (sym same))

pub run_end_if-rest :
    (rest : Str) (branches : List Bool) (v : Vm) (c : Cursor)
    → run_end_if rest branches v ≡ ok c
    → (c.rest ≡ rest) × (c.vm ≡ v)
run_end_if-rest rest [] v c h = cc
run_end_if-rest rest (arm ∷ outer) v c h =
    let same = ok-injective h in (ap (λ c. c.rest) (sym same), ap (λ c. c.vm) (sym same))

module _ (env : Env) (msg : Str) where
  run_instr-rest :
      (i : Instr) (rest : Str) (branches : List Bool) (v : Vm) (c : Cursor)
      → run_instr env msg i rest branches v ≡ ok c
      → length c.rest ≤ length rest
  unfolding run_instr
  run_instr-rest (Instr.direct n) rest branches v c h =
      push_bytes-rest branches v c n ScriptError.push_past_end rest h
  run_instr-rest Instr.push_data rest branches v c h = push_data-rest branches v c rest h
  run_instr-rest Instr.op_if rest branches v c h = ground (arith, run_if-rest branches v c rest h)
  run_instr-rest Instr.op_else rest branches v c h =
      ground (arith, (run_else-rest rest branches v c h).0)
  run_instr-rest Instr.op_end_if rest branches v c h =
      ground (arith, (run_end_if-rest rest branches v c h).0)
  run_instr-rest (Instr.operation op) rest branches v c h =
      let ran = (if executing branches then exec env msg op v else ok v) in
      let (v', done, first) = >>=-eq-ok ran _ h in
      ground (arith, ap (λ c. c.rest) (sym (ok-injective done)))

  step-rest :
      (b : ℕ) (rest : Str) (branches : List Bool) (v : Vm) (c : Cursor)
      → step env msg b rest branches v ≡ ok c
      → length c.rest ≤ length rest
  unfolding step
  step-rest b rest branches v c h =
      let (fits, run) =
        fail_if-eq-ok (ltb max_script_ops (v.ops + 1)) ScriptError.too_many_ops _ h in
      run_instr-rest (instr_of b) rest branches (record v { ops = v.ops + 1 }) c run

  -- Fuel of the script's length is enough.
  pub run_loop-returns :
      (n : ℕ) (rest : Str) (branches : List Bool) (v : Vm)
      → length rest ≤ n
      → is_some (run_loop env msg n rest branches v) ≡ true
  unfolding run_loop
  run_loop-returns n [] branches v fits = refl
  run_loop-returns zero (b ∷ rest) branches v fits = ground arith
  run_loop-returns (suc n) (b ∷ rest) branches v fits =
      elim (Result-cases (step env msg b rest branches v)) [
        | inl (e, refused) ↦ rw (refused, run_loop, is_some) refl
        | inr (c, ran) ↦
            rw (ran, run_loop, is_some)
              (run_loop-returns n c.rest c.branches c.vm
                (ground (arith, step-rest b rest branches v c ran)))
      ]
