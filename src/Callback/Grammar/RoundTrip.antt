-- ===== src/Callback/Grammar/RoundTrip.antt =====
-- The load command that RenderEffect prints (internal/fzf/action.go) and Parse reads
-- (internal/callback/grammar.go).
use shell_picker.Base.{
  ℕ, ◌^◌, ◌<◌, ◌≡◌, ◌≢◌, refl, sym, ap, ◌∙◌, Bool, true, false, not, ◌&&◌, ◌||◌, ◌==◌, ltb, Option,
  none, some, List, [], ◌∷◌, ◌++◌, Bytes, bytes_eq, all, All, cut, cut-append, cut_sound, count, ok,
  ok_eq, >>=-eq-ok, ◌>>=◌, any, subst, cut-eq-none, arith, Bool-cases, Option-cases, inl, inr,
}
use shell_picker.Base.Decimal.{
  is_digit, IsDigit, number, first_of, decimal, decimal-digits, number-decimal, decimal-ne-nil,
  decimal-leading, decimal-number,
}
use shell_picker.Fzf.Render.{load_command}
use shell_picker.Callback.Grammar.{
  Command, CommandKind, second_id, load, load_of, fixed_commands, find_command, parse_id,
  parse_parts, parse_load, parse,
}

pub all-is_digit : (s : Bytes) → All IsDigit s → all is_digit s ≡ true
all-is_digit [] h = refl
all-is_digit (c ∷ s) h = ground (arith, all-is_digit s h.1)

pub IsDigit-all : (s : Bytes) → all is_digit s ≡ true → All IsDigit s
IsDigit-all [] h = tt
IsDigit-all (c ∷ s) h = (ground arith, IsDigit-all s (ground arith))

count-digits : (s : Bytes) → All IsDigit s → count 58 s ≡ 0
count-digits [] h = refl
count-digits (c ∷ s) h = ground (arith, count-digits s h.1)

pub bytes_eq_nil : (s : Bytes) → s ≢ [] → bytes_eq s [] ≡ false
unfolding bytes_eq
bytes_eq_nil [] h = absurd (h refl)
bytes_eq_nil (c ∷ s) h = refl

parse_id-decimal : (n : ℕ) → 0 < n → n < 2 ^ 64 → parse_id (decimal n) ≡ ok n
unfolding parse_id
parse_id-decimal n h k = ground (
  arith,
  all-is_digit (decimal n) (decimal-digits n),
  number-decimal n,
  bytes_eq_nil (decimal n) (decimal-ne-nil n),
  decimal-leading n h,
)

pub ne_nil : (s : Bytes) → bytes_eq s [] ≡ false → s ≢ []
unfolding bytes_eq
ne_nil [] h = cc
ne_nil (c ∷ s) h = cc

pub first_digit :
    (s : Bytes) → s ≢ [] → All IsDigit s → (first_of s == 48) ≡ false → 48 < first_of s
first_digit [] h k e = absurd (h refl)
first_digit (c ∷ s) h k e = ground (arith, k.0)

parse_id_sound : (s : Bytes) (n : ℕ) → parse_id s ≡ ok n → (s ≡ decimal n) × (0 < n) × (n < 2 ^ 64)
unfolding parse_id
parse_id_sound s n h =
    elim (Bool-cases (first_of s == 48 || not (all is_digit s) || bytes_eq s [])) [
      | inl e ↦ absurd (ground arith)
      | inr e ↦ elim (Bool-cases (number s == 0 || not (ltb (number s) (2 ^ 64)))) [
        | inl e' ↦ absurd (ground arith)
        | inr e' ↦
            let value : number s ≡ n = ground arith in
            let digits = IsDigit-all s (ground arith) in
            let leading =
              first_digit s (λ z. absurd (ne_nil s (ground arith) z)) digits (ground arith) in
            (sym (decimal-number s digits leading) ∙ ap decimal value, ground arith, ground arith)
      ]
    ]

-- No fixed text is a load command with a number.
find_command-none :
    (c : ℕ) (t : Bytes) → 48 < c → c < 58 → find_command (108 ∷ 58 ∷ c ∷ t) fixed_commands ≡ none
unfolding find_command fixed_commands bytes_eq
find_command-none c t h k = let e : (101 == c) ≡ false = ground arith in rw e

parse_digits :
    (t : Bytes)
    → 48 < first_of t
    → first_of t < 58
    → parse (108 ∷ 58 ∷ t) ≡ parse_parts t (cut 58 t)
unfolding parse parse_load
parse_digits [] h k = absurd (omega arith)
parse_digits (c ∷ t) h k = rw (find_command-none c t h k)

first_of_digit : (s : Bytes) → All IsDigit s → 48 < first_of s → first_of s < 58
first_of_digit [] h k = absurd (omega arith)
first_of_digit (c ∷ s) h k = h.0.1

first_of-append-digits :
    (s t : Bytes)
    → All IsDigit s
    → 48 < first_of s
    → (48 < first_of (s ++ t)) × (first_of (s ++ t) < 58)
first_of-append-digits [] t h k = absurd (omega arith)
first_of-append-digits (c ∷ s) t h k = (k, h.0.1)

-- The load command of a generation and an event (0 for none) is parsed as such, for numbers
-- of 64 bits and a generation that is not 0.
pub parse-load_command :
    (generation event_id : ℕ)
    → 0 < generation
    → generation < 2 ^ 64
    → event_id < 2 ^ 64
    → parse (load_command generation event_id) ≡ ok (load_of generation event_id)
unfolding load_command parse_parts
parse-load_command g e h k m = elim (Bool-cases (e == 0)) [
  | inl z ↦
      let leading = decimal-leading g h in
      rw z (
        parse_digits (decimal g) leading (first_of_digit (decimal g) (decimal-digits g) leading)
        ∙ ap (parse_parts (decimal g))
            (cut-eq-none 58 (decimal g) (count-digits (decimal g) (decimal-digits g)))
        ∙ rw (parse_id-decimal g h k) (ap (λ n. ok (load_of g n)) (ground arith)))
  | inr z ↦
      let t = decimal g ++ 58 ∷ decimal e in
      let (low, high) =
        first_of-append-digits (decimal g) (58 ∷ decimal e) (decimal-digits g)
          (decimal-leading g h) in
      rw z (
        parse_digits t low high
        ∙ ap (parse_parts t)
            (cut-append 58 (decimal g) (decimal e) (count-digits (decimal g) (decimal-digits g)))
        ∙ rw (
          parse_id-decimal g h k,
          count-digits (decimal e) (decimal-digits e),
          parse_id-decimal e (ground arith) m,
        ))
]

abbrev is_load : CommandKind → Bool
is_load load = true
is_load _ = false

find_command-kind :
    (raw : Bytes) (table : List (Bytes × Command)) (command : Command)
    → any (λ x. is_load x.1.kind) table ≡ false
    → find_command raw table ≡ some command
    → is_load command.kind ≡ false
unfolding find_command
find_command-kind raw [] command h e = cc
find_command-kind raw ((text, c) ∷ rest) command h e = elim (Bool-cases (bytes_eq text raw)) [
  | inl b ↦ ground arith
  | inr b ↦ find_command-kind raw rest command (ground arith) (ground arith)
]

-- What the text of a load command is, and the bounds of its numbers.
abbrev pub IsLoad : Bytes → Command → Type 0
IsLoad raw command =
    (raw ≡ load_command command.generation command.event_id)
    × (0 < command.generation)
    × (command.generation < 2 ^ 64)
    × (command.event_id < 2 ^ 64)

second_id_sound : (b : Bytes) (n : ℕ) → second_id b ≡ ok n → parse_id b ≡ ok n
second_id_sound b n h = elim (Bool-cases (count 58 b == 0)) [
  | inl e ↦ ground arith
  | inr e ↦ absurd (ground arith)
]

parse_parts_sound :
    (t : Bytes) (o : Option (Bytes × Bytes)) (command : Command)
    → cut 58 t ≡ o
    → parse_parts t o ≡ ok command
    → IsLoad (108 ∷ 58 ∷ t) command
unfolding parse_parts load_command
parse_parts_sound t none command e h =
    let (g, parsed, made) = >>=-eq-ok (parse_id t) (λ g. ok (load_of g 0)) h in
    let (text, low, high) = parse_id_sound t g parsed in
    subst (IsLoad (108 ∷ 58 ∷ t)) (ok_eq made) (ap (λ s. 108 ∷ 58 ∷ s) text, low, high, omega arith)
parse_parts_sound t (some (a, b)) command e h =
    let (g, parsed, h₁) = >>=-eq-ok (parse_id a) (λ g. second_id b >>= λ n. ok (load_of g n)) h in
    let (n, parsed', made) = >>=-eq-ok (second_id b) (λ n. ok (load_of g n)) h₁ in
    let (text, low, high) = parse_id_sound a g parsed in
    let (text', low', high') = parse_id_sound b n (second_id_sound b n parsed') in
    let nonzero : (n == 0) ≡ false = ground arith in
    let joined =
      (cut_sound 58 t e).0 ∙ ap (λ s. s ++ 58 ∷ b) text ∙ ap (λ s. decimal g ++ 58 ∷ s) text' in
    subst (IsLoad (108 ∷ 58 ∷ t)) (ok_eq made)
      (rw nonzero (ap (λ s. 108 ∷ 58 ∷ s) joined, low, high, high'))

parse_load-IsLoad :
    (raw : Bytes) (command : Command) → parse_load raw ≡ ok command → IsLoad raw command
unfolding parse_load
parse_load-IsLoad [] command h = cc
parse_load-IsLoad (a ∷ []) command h = cc
parse_load-IsLoad (a ∷ b ∷ t) command h = elim (Bool-cases (a == 108 && b == 58)) [
  | inl e ↦
      let first : a ≡ 108 = ground arith in
      let second : b ≡ 58 = ground arith in
      rw (first, second) (parse_parts_sound t (cut 58 t) command refl (ground arith))
  | inr e ↦ absurd (ground arith)
]

-- Parse reads a load command only from the text that RenderEffect prints for it, so no two texts
-- are the same command.
pub parse_load_sound :
    (raw : Bytes) (command : Command)
    → parse raw ≡ ok command
    → command.kind ≡ load
    → IsLoad raw command
unfolding parse
parse_load_sound raw command h k = elim (Option-cases (find_command raw fixed_commands)) [
  | inl e ↦ parse_load-IsLoad raw command (ground arith)
  | inr (c, e) ↦
      absurd
        (ground (arith, find_command-kind raw fixed_commands c (unfold fixed_commands in refl) e))
]
