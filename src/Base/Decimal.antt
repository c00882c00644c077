-- ===== src/Base/Decimal.antt =====
-- Decimal numbers as the program prints and reads them: `%d` of fmt, and strconv's ParseUint and
-- Atoi at a text of digits.
use Prim.Native.Nat.{ℕ, zero, suc, ◌+◌, ◌-◌, ◌*◌, ◌/◌, ◌%◌, ◌≤◌, ◌<◌}
use mathlib.Core.Path.{◌≡◌, refl, sym, ◌∙◌, ap}
use mathlib.Core.Logic.{◌≢◌, inl, inr}
use mathlib.Core.Bool.{Bool, true, false, ◌&&◌}
use mathlib.Core.List.{[], ◌∷◌, ◌++◌, append-nil, append_assoc}
use native.Mathlib.Omega.{arith}
use shell_picker.Base.Tests.{ltb, leb, if◌then◌else◌, Bytes, Bool-cases}
use shell_picker.Base.Lists.{All, All-append, length, length-append}

abbrev pub is_digit : ℕ → Bool
is_digit c = leb b'0' c && leb c b'9'

-- The last digit takes a tenth of the number, so the number is fuel enough.
decimal_from : ℕ → ℕ → Bytes
decimal_from zero n = []
decimal_from (suc fuel) n =
    let more = decimal_from fuel (n / 10) ++ ((48 + n % 10) ∷ []) in
    if ltb n 10 then (48 + n) ∷ [] else more

unfoldable pub decimal : ℕ → Bytes
unfolding decimal_from
decimal n = decimal_from (suc n) n

unfoldable pub number_from : ℕ → Bytes → ℕ
number_from acc [] = acc
number_from acc (c ∷ s) = number_from (acc * 10 + (c - 48)) s

-- The value of a text of digits.
unfoldable pub number : Bytes → ℕ
unfolding number_from
number s = number_from 0 s

number_from-snoc :
    (acc : ℕ) (s : Bytes) (c : ℕ)
    → number_from acc (s ++ (c ∷ [])) ≡ number_from acc s * 10 + (c - 48)
unfolding number_from
number_from-snoc acc [] c = refl
number_from-snoc acc (d ∷ s) c = number_from-snoc (acc * 10 + (d - 48)) s c

abbrev pub IsDigit : ℕ → Type 0
IsDigit c = (48 ≤ c) × (c < 58)

abbrev pub first_of : Bytes → ℕ
first_of [] = 0
first_of (c ∷ s) = c

first_of-append : (s t : Bytes) → s ≢ [] → first_of (s ++ t) ≡ first_of s
first_of-append [] t h = absurd (h refl)
first_of-append (c ∷ s) t h = refl

append-ne-nil : (s : Bytes) (c : ℕ) → s ++ (c ∷ []) ≢ []
append-ne-nil [] c h = cc
append-ne-nil (d ∷ s) c h = cc

-- What decimal text promises: digits, the value, no leading zero but in 0 itself.
record IsDecimal (n : ℕ) (s : Bytes) : Type 0 where
  pub digits : All IsDigit s
  pub value : number_from 0 s ≡ n
  pub filled : s ≢ []
  pub leading : 0 < n → 48 < first_of s

one_digit : (n : ℕ) → n < 10 → IsDecimal n ((48 + n) ∷ [])
one_digit n h =
    unfold number_from in
    record {
      digits = ground arith;
      value = omega arith;
      filled = ground arith;
      leading = λ p. omega arith;
    }

one_more :
    (n : ℕ) (s : Bytes) → 10 ≤ n → IsDecimal (n / 10) s → IsDecimal n (s ++ ((48 + n % 10) ∷ []))
one_more n s h d = record {
  digits = All-append IsDigit s ((48 + n % 10) ∷ []) d.digits (ground arith);
  value = omega (arith, number_from-snoc 0 s (48 + n % 10), d.value);
  filled = append-ne-nil s (48 + n % 10);
  leading = λ p. rw (first_of-append s ((48 + n % 10) ∷ []) d.filled) (d.leading (omega arith));
}

decimal_from-IsDecimal : (fuel n : ℕ) → n < fuel → IsDecimal n (decimal_from fuel n)
unfolding decimal_from
decimal_from-IsDecimal zero n h = elim h [ ]
decimal_from-IsDecimal (suc fuel) n h = elim (Bool-cases (ltb n 10)) [
  | inl e ↦ rw e (one_digit n (ground arith))
  | inr e ↦ rw e (
      one_more n (decimal_from fuel (n / 10)) (ground arith)
        (decimal_from-IsDecimal fuel (n / 10) (ground arith)))
]

pub decimal-digits : (n : ℕ) → All IsDigit (decimal n)
unfolding decimal
decimal-digits n = (decimal_from-IsDecimal (suc n) n (omega arith)).digits

-- A printed number is read back.
pub number-decimal : (n : ℕ) → number (decimal n) ≡ n
unfolding decimal number
number-decimal n = (decimal_from-IsDecimal (suc n) n (omega arith)).value

pub decimal-ne-nil : (n : ℕ) → decimal n ≢ []
unfolding decimal
decimal-ne-nil n = (decimal_from-IsDecimal (suc n) n (omega arith)).filled

pub decimal-leading : (n : ℕ) → 0 < n → 48 < first_of (decimal n)
unfolding decimal
decimal-leading n = (decimal_from-IsDecimal (suc n) n (omega arith)).leading

decimal_from-fuel : (f g n : ℕ) → n < f → n < g → decimal_from f n ≡ decimal_from g n
unfolding decimal_from
decimal_from-fuel zero g n h k = absurd (omega arith)
decimal_from-fuel (suc f) zero n h k = absurd (omega arith)
decimal_from-fuel (suc f) (suc g) n h k = elim (Bool-cases (ltb n 10)) [
  | inl e ↦ rw e
  | inr e ↦ rw e (
      ap (λ s. s ++ ((48 + n % 10) ∷ []))
        (decimal_from-fuel f g (n / 10) (ground arith) (ground arith)))
]

decimal-snoc : (n d : ℕ) → 0 < n → d < 10 → decimal (n * 10 + d) ≡ decimal n ++ ((48 + d) ∷ [])
unfolding decimal decimal_from
decimal-snoc n d h k =
    let m = n * 10 + d in
    let quotient : m / 10 ≡ n = omega arith in
    let remainder : m % 10 ≡ d = omega arith in
    let big : ltb m 10 ≡ false = ground arith in
    rw (big, quotient, remainder)
      (ap (λ s. s ++ ((48 + d) ∷ [])) (decimal_from-fuel m (suc n) n (omega arith) (omega arith)))

decimal-number_from :
    (acc : ℕ) (s : Bytes) → 0 < acc → All IsDigit s → decimal (number_from acc s) ≡ decimal acc ++ s
unfolding number_from
decimal-number_from acc [] h k = sym (append-nil (decimal acc))
decimal-number_from acc (c ∷ s) h k =
    decimal-number_from (acc * 10 + (c - 48)) s (omega arith) k.1
    ∙ ap (λ t. t ++ s) (decimal-snoc acc (c - 48) h (omega (arith, k.0)))
    ∙ append_assoc (decimal acc) ((48 + (c - 48)) ∷ []) s
    ∙ ap (λ d. decimal acc ++ d ∷ s) (omega (arith, k.0))

pub decimal_digit : (c : ℕ) → IsDigit c → decimal (0 * 10 + (c - 48)) ≡ c ∷ []
unfolding decimal decimal_from
decimal_digit c h =
    let small : ltb (0 * 10 + (c - 48)) 10 ≡ true = ground arith in
    rw small (ap (λ d. d ∷ []) (omega (arith, h)))

-- A text of digits without a leading zero is the print of its value.
pub decimal-number : (s : Bytes) → All IsDigit s → 48 < first_of s → decimal (number s) ≡ s
unfolding number number_from decimal decimal_from
decimal-number [] h k = absurd (omega arith)
decimal-number (c ∷ s) h k =
    decimal-number_from (0 * 10 + (c - 48)) s (omega arith) h.1
    ∙ ap (λ t. t ++ s) (decimal_digit c h.0)

-- A power of ten.
unfoldable pub ten_to : ℕ → ℕ
ten_to zero = 1
ten_to (suc k) = ten_to k * 10

length-one_more : (n k : ℕ) (s : Bytes) → length s ≤ k → length (s ++ ((48 + n % 10) ∷ [])) ≤ suc k
length-one_more n k s h = omega (arith, length-append s ((48 + n % 10) ∷ []))

length-decimal_from :
    (fuel k n : ℕ) → n < fuel → n < ten_to (suc k) → length (decimal_from fuel n) ≤ suc k
unfolding decimal_from ten_to
length-decimal_from zero k n h m = absurd (omega arith)
length-decimal_from (suc fuel) zero n h m =
    let small : ltb n 10 ≡ true = ground arith in rw small (omega arith)
length-decimal_from (suc fuel) (suc k) n h m = elim (Bool-cases (ltb n 10)) [
  | inl e ↦ rw e (omega arith)
  | inr e ↦ rw e (
      length-one_more n (suc k) (decimal_from fuel (n / 10))
        (length-decimal_from fuel k (n / 10) (ground arith) (omega arith)))
]

-- A number below a power of ten has as many digits as its exponent at most.
pub length-decimal : (k n : ℕ) → n < ten_to (suc k) → length (decimal n) ≤ suc k
unfolding decimal
length-decimal k n h = length-decimal_from (suc n) k n (omega arith) h
