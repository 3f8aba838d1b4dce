-- ===== src/Core/Script/Limits.antt =====
-- core/script.go: the machine stays within its limits.
use dnas.Base.{
  ℕ, zero, suc, ◌+◌, ◌*◌, ◌^◌, ◌≤◌, ltb, leb, ◌==◌, if◌then◌else◌, Bool, true, false, not, ◌&&◌,
  ◌||◌, List, [], ◌∷◌, length, ◌≡◌, refl, sym, arith,
}
use dnas.Base.Str.{Str, str_eq}
use dnas.Base.Result.{ok, >>=-eq-ok, fail_if-eq-ok}
use dnas.Core.Block.{max_script_sig_checks}
use dnas.Core.Env.{Env}
use dnas.Core.Script.Bounds.{ok-injective}
use dnas.Core.Script.{
  ScriptError, Vm, Op, push, pop, pop_n, bool_item, truthy, exec, settle, verifies, small_int,
  check_sig, check_multi_sig, check_threshold, check_height, matched, unmarked, dup_top, swap_top,
  pop_from, max_script_ops, max_script_item_bytes, max_script_stack,
}

unfoldable pub items_fit : List Str → Bool
items_fit [] = true
items_fit (item ∷ items) = leb (length item) max_script_item_bytes && items_fit items

-- The limits of core/script.go.
unfoldable pub IsBounded : Vm → Type 0
IsBounded v =
    (length v.stack ≤ max_script_stack)
    × (items_fit v.stack ≡ true)
    × (v.ops ≤ max_script_ops)
    × (v.sig_checks ≤ max_script_sig_checks)
    × (v.min_height ≤ 2 ^ 31)

pub push-IsBounded : (item : Str) (v v' : Vm) → push item v ≡ ok v' → IsBounded v → IsBounded v'
unfolding push IsBounded items_fit
push-IsBounded item v v' h bounded = ground arith

pop_from-IsBounded :
    (stack : List Str) (v : Vm) (p : Str × Vm)
    → v.stack ≡ stack
    → pop_from stack v ≡ ok p
    → IsBounded v
    → IsBounded p.1
unfolding IsBounded items_fit
pop_from-IsBounded [] v p same h bounded = cc
pop_from-IsBounded (item ∷ stack) v p same h bounded =
    rw (sym (ok-injective h)) ground (arith, same)

pub pop-IsBounded : (v : Vm) (p : Str × Vm) → pop v ≡ ok p → IsBounded v → IsBounded p.1
unfolding pop
pop-IsBounded v p h bounded = pop_from-IsBounded v.stack v p refl h bounded

pop_n-IsBounded :
    (n : ℕ) (v : Vm) (p : List Str × Vm) → pop_n n v ≡ ok p → IsBounded v → IsBounded p.1
unfolding pop_n
pop_n-IsBounded zero v p h bounded = rw (sym (ok-injective h)) bounded
pop_n-IsBounded (suc n) v p h bounded =
    let (a, more, popped) = >>=-eq-ok (pop v) _ h in
    let (b, done, rest) = >>=-eq-ok (pop_n n a.1) _ more in
    rw (sym (ok-injective done)) (pop_n-IsBounded n a.1 b rest (pop-IsBounded v a popped bounded))

small_int-le : (item : Str) → small_int item ≤ 2 ^ 31
unfolding small_int
small_int-le item = ground arith

raised :
    (v : Vm) (height : ℕ)
    → height ≤ 2 ^ 31
    → IsBounded v
    → IsBounded (record v { min_height = if ltb v.min_height height then height else v.min_height })
unfolding IsBounded
raised v height small bounded = ground arith

check_height-IsBounded : (v v' : Vm) → check_height v ≡ ok v' → IsBounded v → IsBounded v'
unfolding check_height
check_height-IsBounded v v' h bounded =
    let (item, more, popped) = >>=-eq-ok (pop v) _ h in
    let (short, done) = fail_if-eq-ok (ltb 8 (length item.0)) ScriptError.height_too_large _ more in
    rw (sym (ok-injective done))
      (raised item.1 (small_int item.0) (small_int-le item.0) (pop-IsBounded v item popped bounded))

dup_top-IsBounded :
    (stack : List Str) (v v' : Vm) → dup_top stack v ≡ ok v' → IsBounded v → IsBounded v'
unfolding dup_top
dup_top-IsBounded [] v v' h bounded = absurd cc
dup_top-IsBounded (top ∷ stack) v v' h bounded = push-IsBounded top v v' h bounded

swap_top-IsBounded :
    (stack : List Str) (v v' : Vm)
    → v.stack ≡ stack
    → swap_top stack v ≡ ok v'
    → IsBounded v
    → IsBounded v'
unfolding IsBounded items_fit
swap_top-IsBounded [] v v' same h bounded = cc
swap_top-IsBounded (a ∷ []) v v' same h bounded = cc
swap_top-IsBounded (a ∷ b ∷ stack) v v' same h bounded =
    rw (sym (ok-injective h)) ground (arith, same)

settle-IsBounded :
    (demand : Bool) (e : ScriptError) (answer : Bool) (v v' : Vm)
    → settle demand e answer v ≡ ok v'
    → IsBounded v
    → IsBounded v'
unfolding settle
settle-IsBounded true e true v v' h bounded = rw (sym (ok-injective h)) bounded
settle-IsBounded true e false v v' h bounded = absurd cc
settle-IsBounded false e answer v v' h bounded = push-IsBounded (bool_item answer) v v' h bounded

counted :
    (v : Vm) (n : ℕ)
    → ltb max_script_sig_checks (v.sig_checks + n) ≡ false
    → IsBounded v
    → IsBounded (record v { sig_checks = v.sig_checks + n })
unfolding IsBounded
counted v n few bounded = ground arith

module _ (env : Env) (msg : Str) where
  check_sig-IsBounded :
      (demand : Bool) (v v' : Vm) → check_sig env msg demand v ≡ ok v' → IsBounded v → IsBounded v'
  unfolding check_sig
  check_sig-IsBounded demand v v' h bounded =
      let (few, go) =
        fail_if-eq-ok (ltb max_script_sig_checks (v.sig_checks + 1)) ScriptError.too_many_sig_checks
          _ h in
      let (key, more, popped) = >>=-eq-ok (pop (record v { sig_checks = v.sig_checks + 1 })) _ go in
      let (sig, done, popped') = >>=-eq-ok (pop key.1) _ more in
      settle-IsBounded demand ScriptError.check_sig_verify_failed (verifies env msg key.0 sig.0)
        sig.1 v' done
        (pop-IsBounded key.1 sig popped' (
          pop-IsBounded (record v { sig_checks = v.sig_checks + 1 }) key popped
            (counted v 1 few bounded)))

  check_threshold-IsBounded :
      (demand : Bool) (n : ℕ) (keys : List Str) (v v' : Vm)
      → check_threshold env msg demand n keys v ≡ ok v'
      → IsBounded v
      → IsBounded v'
  unfolding check_threshold
  check_threshold-IsBounded demand n keys v v' h bounded =
      let (item, more, popped) = >>=-eq-ok (pop v) _ h in
      let m = small_int item.0 in
      let (range, go) = fail_if-eq-ok (m == 0 || ltb n m) ScriptError.threshold_range _ more in
      let (sigs, rest, popped') = >>=-eq-ok (pop_n m item.1) _ go in
      let (few, done) =
        fail_if-eq-ok (ltb max_script_sig_checks (sigs.1.sig_checks + m * n))
          ScriptError.too_many_sig_checks _ rest in
      settle-IsBounded demand ScriptError.check_multi_sig_verify_failed
        (leb m (matched env msg sigs.0 (unmarked keys)))
        (record sigs.1 { sig_checks = sigs.1.sig_checks + m * n }) v' done
        (counted sigs.1 (m * n) few
          (pop_n-IsBounded m item.1 sigs popped' (pop-IsBounded v item popped bounded)))

  check_multi_sig-IsBounded :
      (demand : Bool) (v v' : Vm)
      → check_multi_sig env msg demand v ≡ ok v'
      → IsBounded v
      → IsBounded v'
  unfolding check_multi_sig
  check_multi_sig-IsBounded demand v v' h bounded =
      let (item, more, popped) = >>=-eq-ok (pop v) _ h in
      let n = small_int item.0 in
      let (range, go) =
        fail_if-eq-ok (n == 0 || ltb max_script_sig_checks n) ScriptError.key_count _ more in
      let (keys, done, popped') = >>=-eq-ok (pop_n n item.1) _ go in
      check_threshold-IsBounded demand n keys.0 keys.1 v' done
        (pop_n-IsBounded n item.1 keys popped' (pop-IsBounded v item popped bounded))

  pub exec-IsBounded :
      (op : Op) (v v' : Vm) → exec env msg op v ≡ ok v' → IsBounded v → IsBounded v'
  unfolding exec
  exec-IsBounded Op.op_true v v' h bounded = push-IsBounded (1 ∷ []) v v' h bounded
  exec-IsBounded Op.op_false v v' h bounded = push-IsBounded [] v v' h bounded
  exec-IsBounded Op.op_dup v v' h bounded = dup_top-IsBounded v.stack v v' h bounded
  exec-IsBounded Op.op_drop v v' h bounded =
      let (item, done, popped) = >>=-eq-ok (pop v) _ h in
      rw (sym (ok-injective done)) (pop-IsBounded v item popped bounded)
  exec-IsBounded Op.op_swap v v' h bounded = swap_top-IsBounded v.stack v v' refl h bounded
  exec-IsBounded Op.op_equal v v' h bounded =
      let (a, more, popped) = >>=-eq-ok (pop v) _ h in
      let (b, done, popped') = >>=-eq-ok (pop a.1) _ more in
      push-IsBounded (bool_item (str_eq a.0 b.0)) b.1 v' done
        (pop-IsBounded a.1 b popped' (pop-IsBounded v a popped bounded))
  exec-IsBounded Op.op_equal_verify v v' h bounded =
      let (a, more, popped) = >>=-eq-ok (pop v) _ h in
      let (b, rest, popped') = >>=-eq-ok (pop a.1) _ more in
      let (same, done) =
        fail_if-eq-ok (not (str_eq a.0 b.0)) ScriptError.equal_verify_failed _ rest in
      rw (sym (ok-injective done)) (pop-IsBounded a.1 b popped' (pop-IsBounded v a popped bounded))
  exec-IsBounded Op.op_verify v v' h bounded =
      let (top, rest, popped) = >>=-eq-ok (pop v) _ h in
      let (true_top, done) = fail_if-eq-ok (not (truthy top.0)) ScriptError.verify_failed _ rest in
      rw (sym (ok-injective done)) (pop-IsBounded v top popped bounded)
  exec-IsBounded Op.op_sha256 v v' h bounded =
      let (top, done, popped) = >>=-eq-ok (pop v) _ h in
      push-IsBounded (env.crypto.sha256 top.0) top.1 v' done (pop-IsBounded v top popped bounded)
  exec-IsBounded Op.op_check_sig v v' h bounded = check_sig-IsBounded false v v' h bounded
  exec-IsBounded Op.op_check_sig_verify v v' h bounded = check_sig-IsBounded true v v' h bounded
  exec-IsBounded Op.op_check_multi_sig v v' h bounded =
      check_multi_sig-IsBounded false v v' h bounded
  exec-IsBounded Op.op_check_multi_sig_verify v v' h bounded =
      check_multi_sig-IsBounded true v v' h bounded
  exec-IsBounded Op.op_check_height_verify v v' h bounded = check_height-IsBounded v v' h bounded
  exec-IsBounded Op.op_check_sender_verify v v' h bounded = absurd cc
  exec-IsBounded (Op.unknown b) v v' h bounded = absurd cc
