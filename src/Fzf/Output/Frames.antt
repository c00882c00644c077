-- ===== src/Fzf/Output/Frames.antt =====
-- The frames that fzf prints (internal/fzf/output.go, nulFrames) against those that
-- internal/protocol/codec.go writes.
use shell_picker.Base.{
  ℕ, ◌≡◌, refl, sym, subst, ap, ◌∙◌, Bool, true, false, ◌==◌, if◌then◌else◌, List, [], ◌∷◌, ◌++◌,
  Bytes, All, append_assoc, count, ok, arith, Bool-cases, inl, inr,
}
use shell_picker.Protocol.Record.Frames.{frames}
use shell_picker.Fzf.Output.{split_nul, push, last, init, nul_frames}

-- A text without a NUL byte.
abbrev pub NoNul : Bytes → Type 0
NoNul t = count 0 t ≡ 0

split_nul-append : (t s : Bytes) → NoNul t → split_nul (t ++ 0 ∷ s) ≡ t ∷ split_nul s
unfolding split_nul
split_nul-append [] s h = refl
split_nul-append (c ∷ t) s h = ground (arith, split_nul-append t s)

split_nul_plain : (t : Bytes) → NoNul t → split_nul t ≡ t ∷ []
unfolding split_nul
split_nul_plain [] h = refl
split_nul_plain (c ∷ t) h = ground (arith, split_nul_plain t)

last-append : (c : ℕ) (cs : Bytes) (d : ℕ) → last c (cs ++ d ∷ []) ≡ d
unfolding last
last-append c [] d = refl
last-append c (b ∷ cs) d = last-append b cs d

init-append : (c : ℕ) (cs : Bytes) (d : ℕ) → init c (cs ++ d ∷ []) ≡ c ∷ cs
unfolding init
init-append c [] d = refl
init-append c (b ∷ cs) d = ap (λ t. c ∷ t) (init-append b cs d)

append-init-last : (c : ℕ) (cs : Bytes) → init c cs ++ last c cs ∷ [] ≡ c ∷ cs
unfolding init last
append-init-last c [] = refl
append-init-last c (b ∷ cs) = ap (λ t. c ∷ t) (append-init-last b cs)

nul_frames-append : (s : Bytes) → nul_frames (s ++ 0 ∷ []) ≡ ok (split_nul s)
unfolding nul_frames last init split_nul
nul_frames-append [] = refl
nul_frames-append (c ∷ cs) = rw (last-append c cs 0, init-append c cs 0)

split_frames :
    (t : Bytes) (ts : List Bytes)
    → NoNul t
    → All NoNul ts
    → (s : Bytes) × (frames (t ∷ ts) ≡ s ++ 0 ∷ []) × (split_nul s ≡ t ∷ ts)
unfolding frames
split_frames t [] h hs = (t, refl, split_nul_plain t h)
split_frames t (u ∷ us) h hs =
    let (s, e, e') = split_frames u us hs.0 hs.1 in
    (
      t ++ 0 ∷ s,
      ap (λ x. t ++ 0 ∷ x) e ∙ sym (append_assoc t (0 ∷ s) (0 ∷ [])),
      split_nul-append t s h ∙ ap (λ x. t ∷ x) e',
    )

-- The reader of fzf's output gives back the texts of the frames that were written, when none of
-- them contains a NUL byte.
pub nul_frames-frames : (ts : List Bytes) → All NoNul ts → nul_frames (frames ts) ≡ ok ts
unfolding nul_frames frames
nul_frames-frames [] h = refl
nul_frames-frames (t ∷ ts) h =
    let (s, e, e') = split_frames t ts h.0 h.1 in ap nul_frames e ∙ nul_frames-append s ∙ ap ok e'

-- A split at NUL has a first part.
split_nul-cons : (s : Bytes) → (p : Bytes) × (ps : List Bytes) × (split_nul s ≡ p ∷ ps)
unfolding split_nul
split_nul-cons [] = ([], [], refl)
split_nul-cons (c ∷ s) =
    let (p, ps, e) = split_nul-cons s in
    elim (Bool-cases (c == 0)) [
      | inl z ↦ ([], split_nul s, ground arith)
      | inr z ↦ (c ∷ p, ps, ground arith)
    ]

frames-split_nul : (s : Bytes) → frames (split_nul s) ≡ s ++ 0 ∷ []
unfolding frames split_nul
frames-split_nul [] = refl
frames-split_nul (c ∷ s) =
    let (p, ps, e) = split_nul-cons s in
    elim (Bool-cases (c == 0)) [
      | inl z ↦ ground (arith, frames-split_nul s)
      | inr z ↦ ground (arith, e, frames-split_nul s)
    ]

NoNul-push : (c : ℕ) (ps : List Bytes) → (c == 0) ≡ false → All NoNul ps → All NoNul (push c ps)
NoNul-push c [] z h = (ground arith, tt)
NoNul-push c (p ∷ ps) z h = (ground (arith, h.0), h.1)

if-All :
    (b : Bool) (xs ys : List Bytes)
    → (b ≡ true → All NoNul xs)
    → (b ≡ false → All NoNul ys)
    → All NoNul (if b then xs else ys)
if-All true xs ys f g = f refl
if-All false xs ys f g = g refl

NoNul-split_nul : (s : Bytes) → All NoNul (split_nul s)
unfolding split_nul
NoNul-split_nul [] = (refl, tt)
NoNul-split_nul (c ∷ s) =
    if-All (c == 0) _ _ (λ z. (refl, NoNul-split_nul s))
      (λ z. NoNul-push c (split_nul s) z (NoNul-split_nul s))

-- Output that the reader accepts is the concatenation of its frames, none of which contains a NUL.
pub nul_frames_sound :
    (s : Bytes) (ts : List Bytes) → nul_frames s ≡ ok ts → (frames ts ≡ s) × All NoNul ts
unfolding nul_frames frames
nul_frames_sound [] ts h =
    let e : [] ≡ ts = ground arith in (sym (ap frames e), subst (All NoNul) e tt)
nul_frames_sound (c ∷ cs) ts h = elim (Bool-cases (last c cs == 0)) [
  | inl z ↦
      let e : split_nul (init c cs) ≡ ts = ground arith in
      (
        sym (ap frames e)
            ∙ frames-split_nul (init c cs)
            ∙ ap (λ d. init c cs ++ d ∷ []) (ground arith)
            ∙ append-init-last c cs,
        subst (All NoNul) e (NoNul-split_nul (init c cs)),
      )
  | inr z ↦ absurd (ground arith)
]
