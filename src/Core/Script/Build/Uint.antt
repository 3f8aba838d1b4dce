-- ===== src/Core/Script/Build/Uint.antt =====
-- core/scriptbuild.go and core/script.go: the numbers that `PushUint` writes and `smallInt` reads.
use dnas.Base.{
  ℕ, zero, suc, ◌^◌, ◌<◌, ◌≤◌, ltb, if◌then◌else◌, [], ◌∷◌, length, ◌≡◌, refl, ap, ◌∙◌, arith,
}
use dnas.Base.Str.{Str}
use dnas.Core.Tx.Codec.{put_u32, put_u64}
use dnas.Core.Script.{be_value, small_int}
use dnas.Core.Script.Build.{drop_leading, uint_item}

drop_leading-value : (n : ℕ) (buf : Str) → be_value 0 (drop_leading n buf) ≡ be_value 0 buf
unfolding drop_leading be_value
drop_leading-value zero buf = refl
drop_leading-value (suc n) [] = refl
drop_leading-value (suc n) (b ∷ buf) = ground (arith, drop_leading-value n buf)

drop_leading-length : (n : ℕ) (buf : Str) → length (drop_leading n buf) ≤ length buf
unfolding drop_leading
drop_leading-length zero buf = ground arith
drop_leading-length (suc n) [] = ground arith
drop_leading-length (suc n) (b ∷ buf) = ground (arith, drop_leading-length n buf)

drop_leading-some : (n : ℕ) (buf : Str) → n < length buf → 0 < length (drop_leading n buf)
unfolding drop_leading
drop_leading-some zero buf h = ground arith
drop_leading-some (suc n) [] h = ground arith
drop_leading-some (suc n) (b ∷ buf) h = ground (arith, drop_leading-some n buf)

put_u64-value : (v : ℕ) → v < 2 ^ 64 → be_value 0 (put_u64 v) ≡ v
unfolding be_value put_u64 put_u32
put_u64-value v small = omega arith

put_u64-length : (v : ℕ) → length (put_u64 v) ≡ 8
unfolding put_u64 put_u32
put_u64-length v = refl

pub uint_item-length : (v : ℕ) → length (uint_item v) ≤ 8
unfolding uint_item
uint_item-length v = ground (arith, drop_leading-length 7 (put_u64 v), put_u64-length v)

small_int-value :
    (item : Str)
    → 0 < length item
    → length item ≤ 8
    → small_int item ≡ (if ltb (2 ^ 31) (be_value 0 item) then 2 ^ 31 else be_value 0 item)
unfolding small_int
small_int-value item some_bytes few = ground arith

uint_item-value :
    (v : ℕ) → v < 2 ^ 64 → 0 < v → (be_value 0 (uint_item v) ≡ v) × (0 < length (uint_item v))
unfolding uint_item
uint_item-value v small positive = ground (
  arith,
  drop_leading-value 7 (put_u64 v) ∙ put_u64-value v small,
  put_u64-length v,
  drop_leading-some 7 (put_u64 v),
)

zero_item : small_int (uint_item zero) ≡ 0
unfolding small_int uint_item
zero_item = refl

-- The machine reads the number that `PushUint` wrote, for numbers below 2 ^ 64, but none above 2 ^ 31:
-- those are read as 2 ^ 31.
pub small_int-uint_item :
    (v : ℕ) → v < 2 ^ 64 → small_int (uint_item v) ≡ (if ltb (2 ^ 31) v then 2 ^ 31 else v)
small_int-uint_item zero small = zero_item
small_int-uint_item (suc v) small =
    let (value, some_bytes) = uint_item-value (suc v) small (ground arith) in
    small_int-value (uint_item (suc v)) some_bytes (uint_item-length (suc v))
    ∙ ap (λ n. if ltb (2 ^ 31) n then 2 ^ 31 else n) value
