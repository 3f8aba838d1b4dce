-- ===== src/Core/Target/Bounds.antt =====
-- core/target.go: a number is committed to rounded down, but never to zero.
use dnas.Base.{
  ℕ, zero, suc, ◌+◌, ◌-◌, ◌*◌, ◌/◌, ◌%◌, ◌^◌, ◌<◌, ◌≤◌, ltb, leb, ◌==◌, false, ◌≡◌, refl, sym, ap,
  ◌∙◌, arith, inl, inr, Bool-cases, ltb→lt,
}
use native.Mathlib.Nat.{
  pow-suc, one-le-pow, mul-pos, mul-le-mul_right, mul_assoc, div-mul-le_self, le-div_iff_mul-le,
  div-lt_iff_lt-mul,
}
use dnas.Core.Target.{byte_len, leading, pack, big_to_compact, compact_to_big}

decode : (n m : ℕ) → m < 2 ^ 23 → 3 < n → compact_to_big (n * 2 ^ 24 + m) ≡ m * 256 ^ (n - 3)
unfolding compact_to_big
decode n m small big =
    let low : (n * 2 ^ 24 + m) % 2 ^ 23 ≡ m = omega arith in
    let high : (n * 2 ^ 24 + m) / 2 ^ 24 ≡ n = omega arith in
    let wide : leb n 3 ≡ false = ground arith in rw (low, high, wide) refl

byte_len-upper : (f n : ℕ) → n ≤ f → n < 256 ^ byte_len f n
unfolding byte_len
byte_len-upper f zero h = omega arith
byte_len-upper zero (suc n) h = absurd (omega arith)
byte_len-upper (suc f) (suc n) h =
    omega
      (arith, byte_len-upper f (suc n / 256) (omega arith), pow-suc 256 (byte_len f (suc n / 256)))

byte_len-lower : (f n : ℕ) → n ≤ f → 0 < n → 256 ^ byte_len f n ≤ 256 * n
unfolding byte_len
byte_len-lower f zero h some_n = absurd (omega arith)
byte_len-lower zero (suc n) h some_n = absurd (omega arith)
byte_len-lower (suc f) (suc n) h some_n = elim (Bool-cases (ltb n 255)) [
  | inl small ↦ let last : suc n / 256 ≡ 0 = ground arith in rw last (omega arith)
  | inr large ↦ omega (
    arith,
    byte_len-lower f (suc n / 256) (omega arith) (ground arith),
    pow-suc 256 (byte_len f (suc n / 256)),
  )
]

-- The value that is read back, of a number of `b` bytes.
read_back : ℕ → ℕ → ℕ
read_back b n = compact_to_big (pack b (leading b n))

one-read_back : (n : ℕ) → 0 < n → n < 256 → read_back 1 n ≡ n
unfolding read_back compact_to_big pack leading
one-read_back n some_n fits = ground arith

two-read_back : (n : ℕ) → n < 65536 → read_back 2 n ≡ n
unfolding read_back compact_to_big pack leading
two-read_back n fits = ground arith

three-read_back : (n : ℕ) → 65536 ≤ n → n < 16777216 → (0 < read_back 3 n) × (read_back 3 n ≤ n)
unfolding read_back compact_to_big pack leading
three-read_back n large fits = ground arith

power : ℕ → ℕ
power k = 256 ^ (k + 1)

next_power : (i j : ℕ) → i ≡ suc j → 256 ^ i ≡ 256 ^ j * 256
next_power i j h = ap (λ x. 256 ^ x) h ∙ pow-suc 256 j

power-some : (k : ℕ) → 0 < power k
unfolding power
power-some k = one-le-pow (k + 1) 256 (omega arith)

power-eq : (k : ℕ) → 256 ^ (k + 4) ≡ power k * 2 ^ 24
unfolding power
power-eq k = omega (
  arith,
  next_power (k + 2) (k + 1) (omega arith),
  next_power (k + 3) (k + 2) (omega arith),
  next_power (k + 4) (k + 3) (omega arith),
)

decode_high : (k m : ℕ) → m < 2 ^ 23 → compact_to_big ((k + 4) * 2 ^ 24 + m) ≡ m * power k
unfolding power
decode_high k m small =
    decode (k + 4) m small (omega arith)
    ∙ ap (λ x. m * 256 ^ x) (let same : k + 4 - 3 ≡ k + 1 = omega arith in same)

power-suc : (k : ℕ) → power (k + 1) ≡ 256 * power k
unfolding power
power-suc k = omega (arith, next_power (k + 1 + 1) (k + 1) (omega arith))

leading-eq : (k n : ℕ) → leading (k + 4) n ≡ n / power k
unfolding leading power
leading-eq k n =
    let wide : leb (k + 4) 3 ≡ false = ground arith in
    let same : k + 4 - 3 ≡ k + 1 = omega arith in rw (wide, same) refl

-- A mantissa of three bytes, in its two forms.
pack-value :
    (k q : ℕ)
    → 2 ^ 16 ≤ q
    → q < 2 ^ 24
    → (0 < compact_to_big (pack (k + 4) q)) × (compact_to_big (pack (k + 4) q) ≤ q * power k)
unfolding pack
pack-value k q large small = elim (Bool-cases (ltb q (2 ^ 23))) [
  | inl low ↦
      rw (low, decode_high k q (ltb→lt _ _ low))
        (mul-pos (omega (arith, large)) (power-some k), omega arith)
  | inr high ↦
      let same : (k + 4 + 1) * 2 ^ 24 + q / 256 ≡ (k + 1 + 4) * 2 ^ 24 + q / 256 = omega arith in
      let byte : q / 256 * 256 ≤ q = div-mul-le_self q 256 in
      rw (high, same, decode_high (k + 1) (q / 256) (omega (arith, small)))
        (
          mul-pos (omega (arith, large)) (power-some (k + 1)),
          rw (power-suc k, sym (mul_assoc (q / 256) 256 (power k)))
              (mul-le-mul_right (power k) byte),
        )
]

long-read_back :
    (k n : ℕ)
    → n < 256 ^ (k + 4)
    → 256 ^ (k + 4) ≤ 256 * n
    → (0 < read_back (k + 4) n) × (read_back (k + 4) n ≤ n)
unfolding read_back
long-read_back k n upper lower =
    let small : n / power k < 2 ^ 24 =
      (div-lt_iff_lt-mul (power-some k)).1 (omega (arith, power-eq k, upper)) in
    let large : 2 ^ 16 ≤ n / power k =
      (le-div_iff_mul-le (power-some k)).1 (omega (arith, power-eq k, lower)) in
    let (some_value, value) = pack-value k (n / power k) large small in
    rw (leading-eq k n) (some_value, omega (arith, value, div-mul-le_self n (power k)))

sized-read_back :
    (b n : ℕ) → 0 < n → n < 256 ^ b → 256 ^ b ≤ 256 * n → (0 < read_back b n) × (read_back b n ≤ n)
sized-read_back zero n some_n upper lower = absurd (omega arith)
sized-read_back (suc zero) n some_n upper lower =
    let same = one-read_back n some_n (omega (arith, upper)) in
    (omega (arith, same), omega (arith, same))
sized-read_back (suc (suc zero)) n some_n upper lower =
    let same = two-read_back n (omega (arith, upper)) in (omega (arith, same), omega (arith, same))
sized-read_back (suc (suc (suc zero))) n some_n upper lower =
    three-read_back n (omega (arith, lower)) (omega (arith, upper))
sized-read_back (suc (suc (suc (suc k)))) n some_n upper lower =
    let same : suc (suc (suc (suc k))) ≡ k + 4 = omega arith in
    rw same (long-read_back k n (rw (sym same) upper) (rw (sym same) lower))

-- The target that a header commits to for a number above 0 is above 0 and at most the number.
pub big_to_compact-le :
    (n : ℕ)
    → 0 < n
    → (0 < compact_to_big (big_to_compact n)) × (compact_to_big (big_to_compact n) ≤ n)
unfolding big_to_compact read_back
big_to_compact-le n some_n =
    let positive : (n == 0) ≡ false = ground arith in
    rw positive (
      sized-read_back (byte_len n n) n some_n (byte_len-upper n n (omega arith))
        (byte_len-lower n n (omega arith) some_n))
