-- ===== src/Base/Errors.antt =====
-- A result or an error, for Go's `(value, error)`; an error is a value of the component's type.
use mathlib.Core.Path.{◌≡◌, refl}
use mathlib.Core.Bool.{Bool, true, false, ◌&&◌}

pub data Result {κ} (E : Type 0) (A : Type κ) : Type κ where
  err : E → Result E A
  ok : A → Result E A

abbrev pub is_ok {κ} : {E : Type 0} {A : Type κ} → Result E A → Bool
is_ok (err reason) = false
is_ok (ok value) = true

-- `if !passed { return reason }`.
abbrev pub guard : {E : Type 0} → Bool → E → Result E (Unit {0})
guard passed reason = elim passed [ true ↦ ok tt | false ↦ err reason ]

-- The rest of a function after a call that may fail.
abbrev pub ◌>>=◌ {κ μ} :
    {E : Type 0} {A : Type κ} {B : Type μ} → Result E A → (A → Result E B) → Result E B
err reason >>= next = err reason
ok value >>= next = next value

-- The same, where the value is not used.
abbrev pub ◌>>◌ {κ} : {E : Type 0} {B : Type κ} → Result E (Unit {0}) → Result E B → Result E B
first >> second = first >>= λ nothing. second

infixl 5 ◌>>=◌ ◌>>◌
-- Inversion: when a chain succeeded, its first step did, and so did the rest on that value.
pub >>=-eq-ok {κ μ} :
    {E : Type 0} {A : Type κ} {B : Type μ} (first : Result E A) (next : A → Result E B) {result : B}
    → (first >>= next) ≡ ok result
    → (value : A) × (first ≡ ok value) × (next value ≡ ok result)
>>=-eq-ok (err reason) next h = cc
>>=-eq-ok (ok value) next h = (value, refl, h)

-- A chain succeeds when its first step does and the rest does, which here does not depend on the
-- value.
pub is_ok->>= {ℓ κ} :
    {E : Type 0} {A : Type ℓ} {B : Type κ} (m : Result E A) (f : A → Result E B) (b : Bool)
    → ((a : A) → is_ok (f a) ≡ b)
    → is_ok (m >>= f) ≡ (is_ok m && b)
is_ok->>= (ok a) f b h = h a
is_ok->>= (err e) f b h = refl

-- Inversion of a guard that was passed.
pub guard-eq-ok {ℓ} :
    {E : Type 0} {B : Type ℓ} (b : Bool) (e : E) (k : Result E B) {x : B}
    → (guard b e >> k) ≡ ok x
    → (b ≡ true) × (k ≡ ok x)
guard-eq-ok true e k h = (refl, h)
guard-eq-ok false e k h = cc

pub ok_eq {ℓ} : {E : Type 0} {A : Type ℓ} {a b : A} → Path (Result E A) (ok a) (ok b) → a ≡ b
ok_eq h = cc
