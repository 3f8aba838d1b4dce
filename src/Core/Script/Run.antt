-- ===== src/Core/Script/Run.antt =====
-- core/script.go: the limits over a whole run.
use dnas.Base.{
  ℕ, zero, suc, ◌+◌, ◌*◌, ltb, if◌then◌else◌, Bool, true, false, some, List, [], ◌∷◌, length, take,
  ◌≡◌, sym, arith, inl, inr, Bool-cases,
}
use dnas.Base.Str.{Str}
use dnas.Base.Result.{Result, ok, err, >>=-eq-ok, fail_if-eq-ok, Result-cases}
use dnas.Core.Env.{Env}
use dnas.Core.Script.{
  ScriptError, Vm, Op, Instr, push, pop, exec, executing, instr_of, max_script_ops,
}
use dnas.Core.Script.Bounds.{ok-injective, run_else-rest, run_end_if-rest}
use dnas.Core.Script.Limits.{IsBounded, push-IsBounded, pop-IsBounded, exec-IsBounded}
use dnas.Core.Script.Eval.{Cursor, push_bytes, push_data, run_if, run_instr, step, run_loop}

abbrev pub failed : ScriptError → Result ScriptError Vm
failed e = err e

abbrev pub done_with : Vm → Result ScriptError Vm
done_with v = ok v

pub ended-ok : (e : ScriptError) (v : Vm) → some (failed e) ≡ some (done_with v) → ⊥
ended-ok e v h = cc

ended : {v v' : Vm} → some (done_with v) ≡ some (done_with v') → v ≡ v'
ended h = cc

live_push-IsBounded :
    (live : Bool) (item : Str) (v v' : Vm)
    → (if live then push item v else ok v) ≡ ok v'
    → IsBounded v
    → IsBounded v'
live_push-IsBounded true item v v' h bounded = push-IsBounded item v v' h bounded
live_push-IsBounded false item v v' h bounded = rw (sym (ok-injective h)) bounded

push_bytes-IsBounded :
    (n : ℕ) (past : ScriptError) (rest : Str) (branches : List Bool) (v : Vm) (c : Cursor)
    → push_bytes n past rest branches v ≡ ok c
    → IsBounded v
    → IsBounded c.vm
unfolding push_bytes
push_bytes-IsBounded n past rest branches v c h bounded =
    let pushed = (if executing branches then push (take n rest) v else ok v) in
    let (fits, run) = fail_if-eq-ok (ltb (length rest) n) past _ h in
    let (v', done, first) = >>=-eq-ok pushed _ run in
    rw (sym (ok-injective done))
      (live_push-IsBounded (executing branches) (take n rest) v v' first bounded)

push_data-IsBounded :
    (rest : Str) (branches : List Bool) (v : Vm) (c : Cursor)
    → push_data rest branches v ≡ ok c
    → IsBounded v
    → IsBounded c.vm
unfolding push_data
push_data-IsBounded [] branches v c h bounded = absurd cc
push_data-IsBounded (hi ∷ []) branches v c h bounded = absurd cc
push_data-IsBounded (hi ∷ lo ∷ rest) branches v c h bounded =
    push_bytes-IsBounded (hi * 256 + lo) ScriptError.push_past_end rest branches v c h bounded

run_if-IsBounded :
    (rest : Str) (branches : List Bool) (v : Vm) (c : Cursor)
    → run_if rest branches v ≡ ok c
    → IsBounded v
    → IsBounded c.vm
unfolding run_if
run_if-IsBounded rest branches v c h bounded = elim (Bool-cases (executing branches)) [
  | inl e ↦
      let (cond, done, popped) = >>=-eq-ok (pop v) _ (rw e at h) in
      rw (sym (ok-injective done)) (pop-IsBounded v cond popped bounded)
  | inr e ↦ rw (sym (ok-injective (rw e at h))) bounded
]

live_exec-IsBounded :
    (env : Env) (msg : Str) (live : Bool) (op : Op) (v v' : Vm)
    → (if live then exec env msg op v else ok v) ≡ ok v'
    → IsBounded v
    → IsBounded v'
live_exec-IsBounded env msg true op v v' h bounded = exec-IsBounded env msg op v v' h bounded
live_exec-IsBounded env msg false op v v' h bounded = rw (sym (ok-injective h)) bounded

another_op :
    (v : Vm)
    → ltb max_script_ops (v.ops + 1) ≡ false
    → IsBounded v
    → IsBounded (record v { ops = v.ops + 1 })
unfolding IsBounded
another_op v few bounded = ground arith

module _ (env : Env) (msg : Str) where
  run_instr-IsBounded :
      (i : Instr) (rest : Str) (branches : List Bool) (v : Vm) (c : Cursor)
      → run_instr env msg i rest branches v ≡ ok c
      → IsBounded v
      → IsBounded c.vm
  unfolding run_instr
  run_instr-IsBounded (Instr.direct n) rest branches v c h bounded =
      push_bytes-IsBounded n ScriptError.push_past_end rest branches v c h bounded
  run_instr-IsBounded Instr.push_data rest branches v c h bounded =
      push_data-IsBounded rest branches v c h bounded
  run_instr-IsBounded Instr.op_if rest branches v c h bounded =
      run_if-IsBounded rest branches v c h bounded
  run_instr-IsBounded Instr.op_else rest branches v c h bounded =
      rw ((run_else-rest rest branches v c h).1) bounded
  run_instr-IsBounded Instr.op_end_if rest branches v c h bounded =
      rw ((run_end_if-rest rest branches v c h).1) bounded
  run_instr-IsBounded (Instr.operation op) rest branches v c h bounded =
      let ran = (if executing branches then exec env msg op v else ok v) in
      let (v', done, first) = >>=-eq-ok ran _ h in
      rw (sym (ok-injective done))
        (live_exec-IsBounded env msg (executing branches) op v v' first bounded)

  -- A round that ends without an error keeps the machine within the limits of core/script.go: at most
  -- 64 items, each of at most 520 bytes, at most 256 operations and 20 signature checks, and a
  -- required height of at most 2 ^ 31.
  pub step-IsBounded :
      (b : ℕ) (rest : Str) (branches : List Bool) (v : Vm) (c : Cursor)
      → step env msg b rest branches v ≡ ok c
      → IsBounded v
      → IsBounded c.vm
  unfolding step
  step-IsBounded b rest branches v c h bounded =
      let (few, run) =
        fail_if-eq-ok (ltb max_script_ops (v.ops + 1)) ScriptError.too_many_ops _ h in
      run_instr-IsBounded (instr_of b) rest branches (record v { ops = v.ops + 1 }) c run
        (another_op v few bounded)

  pub run_loop-IsBounded :
      (n : ℕ) (rest : Str) (branches : List Bool) (v v' : Vm)
      → run_loop env msg n rest branches v ≡ some (ok v')
      → IsBounded v
      → IsBounded v'
  unfolding run_loop
  run_loop-IsBounded n [] [] v v' h bounded = rw (sym (ended h)) bounded
  run_loop-IsBounded n [] (b ∷ branches) v v' h bounded = absurd (ended-ok _ v' h)
  run_loop-IsBounded zero (b ∷ rest) branches v v' h bounded = absurd cc
  run_loop-IsBounded (suc n) (b ∷ rest) branches v v' h bounded =
      elim (Result-cases (step env msg b rest branches v)) [
        | inl (e, refused) ↦ absurd (ended-ok e v' (rw (refused, run_loop) at h))
        | inr (c, ran) ↦
            run_loop-IsBounded n c.rest c.branches c.vm v' (rw (ran, run_loop) at h)
              (step-IsBounded b rest branches v c ran bounded)
      ]
