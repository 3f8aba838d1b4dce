-- ===== src/Core/Script/Build/Code.antt =====
-- core/scriptbuild.go: what a builder holds, as the list of what it was given.
use dnas.Base.{
  ℕ, ◌+◌, ◌≤◌, ◌<◌, is_empty, length-append, ltb, false, some, List, [], ◌∷◌, ◌++◌, length, ◌≡◌,
  refl, sym, arith,
}
use mathlib.Core.List.{append_assoc, append-nil}
use dnas.Base.Str.{Str}
use dnas.Base.Result.{ok}
use dnas.Core.Env.{Env}
use dnas.Core.Script.{op_push_data}
use dnas.Core.Script.Build.{
  ScriptBuilder, new_script, add_op, add_push, add_push_hex, add_push_uint, push_code, uint_item,
}
use dnas.Core.Script.Build.Uint.{uint_item-length}
use dnas.Core.Script.Items.{Item, push_item, op_item, assemble}
use dnas.Core.Script.Items.Steps.{push_code-some}

assemble-append :
    (front back : List Item) → assemble (front ++ back) ≡ assemble front ++ assemble back
unfolding assemble
assemble-append [] back = refl
assemble-append (push_item item ∷ front) back =
    rw (assemble-append front back)
      (sym (append_assoc (push_code item) (assemble front) (assemble back)))
assemble-append (op_item op ∷ front) back = rw (assemble-append front back) refl

pub fits_item : (item : Str) → length item ≤ 520 → ltb 520 (length item) ≡ false
fits_item item fits = ground arith

-- A builder that holds the code of some items.
pub data Built (s : ScriptBuilder) (items : List Item) : Type 0 where
  built : s ≡ ok (assemble items) → Built s items

pub Built-eq : {s : ScriptBuilder} {items : List Item} → Built s items → s ≡ ok (assemble items)
Built-eq (built h) = h

pub new_script-items : Built new_script []
unfolding assemble
new_script-items = built refl

pub add_op-items :
    (op : ℕ) {s : ScriptBuilder} {items : List Item}
    → Built s items
    → ltb op op_push_data ≡ false
    → Built (add_op op s) (items ++ op_item op ∷ [])
unfolding add_op assemble
add_op-items op {items = items} (built h) is_op =
    built (rw (h, is_op, assemble-append items (op_item op ∷ [])) refl)

pub add_push-items :
    (item : Str) {s : ScriptBuilder} {items : List Item}
    → Built s items
    → length item ≤ 520
    → Built (add_push item s) (items ++ push_item item ∷ [])
unfolding add_push assemble
add_push-items item {items = items} (built h) fits = built (
    rw
      (
        h,
        fits_item item fits,
        assemble-append items (push_item item ∷ []),
        append-nil (push_code item),
      )
      refl)

pub add_push_hex-items :
    (env : Env) (item_hex : Str) {item : Str} {s : ScriptBuilder} {items : List Item}
    → Built s items
    → env.crypto.hex_decode item_hex ≡ some item
    → length item ≤ 520
    → Built (add_push_hex env item_hex s) (items ++ push_item item ∷ [])
unfolding add_push_hex
add_push_hex-items env item_hex {item = item} (built h) decoded fits =
    built (rw (h, decoded) (Built-eq (add_push-items item (built refl) fits)))

pub add_push_uint-items :
    (v : ℕ) {s : ScriptBuilder} {items : List Item}
    → Built s items
    → Built (add_push_uint v s) (items ++ push_item (uint_item v) ∷ [])
unfolding add_push_uint
add_push_uint-items v before =
    add_push-items (uint_item v) before (ground (arith, uint_item-length v))

-- The code of an item takes at most three bytes besides the item.
unfoldable pub code_size : List Item → ℕ
code_size [] = 0
code_size (push_item item ∷ items) = 3 + length item + code_size items
code_size (op_item op ∷ items) = 1 + code_size items

push_code-le : (item : Str) → length (push_code item) ≤ 3 + length item
unfolding push_code
push_code-le item = ground arith

pub assemble-le : (items : List Item) → length (assemble items) ≤ code_size items
unfolding assemble code_size
assemble-le [] = ground arith
assemble-le (push_item item ∷ items) =
    omega
      (arith, length-append (push_code item) (assemble items), push_code-le item, assemble-le items)
assemble-le (op_item op ∷ items) = omega (arith, assemble-le items)

pub assemble-some : (items : List Item) → is_empty items ≡ false → 0 < length (assemble items)
unfolding assemble
assemble-some [] h = absurd cc
assemble-some (push_item item ∷ items) h =
    omega (arith, length-append (push_code item) (assemble items), push_code-some item)
assemble-some (op_item op ∷ items) h = omega arith
