-- ===== src/Base/Result.antt =====
-- Go's `(value, error)` and plain `error` results: a value, or one error.
use mathlib.Core.Path.{◌≡◌, refl}
use mathlib.Core.Logic.{◌⊎◌, inl, inr}
use mathlib.Core.Bool.{Bool, true, false}
use mathlib.Core.Option.{Option, none, some}
use dnas.Base.Tests.{⊤}

pub data Result (E : Type 0) (A : Type 0) : Type 0 where
  err : E → Result E A
  ok : A → Result E A

-- `if c { return e }`
abbrev pub fail_if : {E : Type 0} → Bool → E → Result E ⊤
fail_if false e = ok tt
fail_if true e = err e

infixl 5 ◌>>=◌ ◌>>◌
abbrev pub ◌>>=◌ : {E A B : Type 0} → Result E A → (A → Result E B) → Result E B
err problem >>= next = err problem
ok value >>= next = next value

-- A check, and on.
abbrev pub ◌>>◌ : {E B : Type 0} → Result E ⊤ → Result E B → Result E B
check >> next = check >>= λ _. next

abbrev pub or_fail : {E A : Type 0} → Option A → E → Result E A
or_fail none e = err e
or_fail (some a) e = ok a

-- What the first step of a chain that succeeded returned, and that the rest succeeded on it.
pub >>=-eq-ok :
    {E A B : Type 0} (first : Result E A) (rest : A → Result E B) {result : B}
    → (first >>= rest) ≡ ok result
    → (value : A) × (rest value ≡ ok result) × (first ≡ ok value)
>>=-eq-ok (err problem) rest done = cc
>>=-eq-ok (ok value) rest done = (value, done, refl)

pub fail_if-eq-ok :
    {E B : Type 0} (c : Bool) (x : E) (k : Result E B) {b : B}
    → (fail_if c x >> k) ≡ ok b
    → (c ≡ false) × (k ≡ ok b)
fail_if-eq-ok false x k h = (refl, h)
fail_if-eq-ok true x k h = cc

pub Result-cases :
    {E A : Type 0} (r : Result E A) → ((e : E) × (r ≡ err e)) ⊎ ((a : A) × (r ≡ ok a))
Result-cases (err e) = inl (e, refl)
Result-cases (ok a) = inr (a, refl)

pub or_fail-ok : {E A : Type 0} (o : Option A) (e : E) {a : A} → or_fail o e ≡ ok a → o ≡ some a
or_fail-ok none e h = cc
or_fail-ok (some a) e h = cc
