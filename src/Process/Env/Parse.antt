-- ===== src/Process/Env/Parse.antt =====
-- An environment entry and its parts (internal/process/env.go).
use shell_picker.Base.{
  ◌≡◌, ◌≢◌, refl, sym, ◌∙◌, false, ◌==◌, Option, none, some, [], ◌∷◌, ◌++◌, Bytes, any, cut,
  cut_sound, ok, arith, Bool-cases, inl, inr,
}
use shell_picker.Process.Env.{
  Entry, is_nil, checked_entry, pseudo_entry, split_entry, parse_environment_entry,
}

checked_entry_sound :
    (raw name value : Bytes) (e : Entry)
    → checked_entry raw name value ≡ ok e
    → (e.raw ≡ raw) × (e.name ≡ name) × (e.value ≡ value) × (name ≢ [])
checked_entry_sound raw [] value e h = absurd (ground arith)
checked_entry_sound raw (c ∷ name) value e h = (ground arith, ground arith, ground arith, λ z. cc)

pseudo_entry_sound :
    (raw rest : Bytes) (parts : Option (Bytes × Bytes)) (e : Entry)
    → raw ≡ b'=' ∷ rest
    → cut b'=' rest ≡ parts
    → pseudo_entry raw parts ≡ ok e
    → (e.raw ≡ raw) × (raw ≡ e.name ++ b'=' ∷ e.value) × (e.name ≢ [])
pseudo_entry_sound raw rest none e r c h = absurd (ground arith)
pseudo_entry_sound raw rest (some (name, value)) e r c h =
    let (same, n, v, ne) = checked_entry_sound raw (b'=' ∷ name) value e h in
    let whole = cut_sound b'=' rest c in (same, ground (arith, whole), λ z. ne (sym n ∙ z))

split_entry_sound :
    (raw : Bytes) (parts : Option (Bytes × Bytes)) (e : Entry)
    → cut b'=' raw ≡ parts
    → split_entry raw parts ≡ ok e
    → (e.raw ≡ raw) × (raw ≡ e.name ++ b'=' ∷ e.value) × (e.name ≢ [])
split_entry_sound raw none e c h = absurd (ground arith)
split_entry_sound raw (some ([], rest)) e c h =
    pseudo_entry_sound raw rest (cut b'=' rest) e (cut_sound b'=' raw c).0 refl h
split_entry_sound raw (some (x ∷ name, value)) e c h =
    let (same, n, v, ne) = checked_entry_sound raw (x ∷ name) value e h in
    let whole = cut_sound b'=' raw c in (same, ground (arith, whole), λ z. ne (sym n ∙ z))

-- What an accepted entry is: its raw text, without a NUL, is the name, `=`, and the value, and the
-- name is not empty.
pub parse_environment_entry_sound :
    (raw : Bytes) (e : Entry)
    → parse_environment_entry raw ≡ ok e
    → (e.raw ≡ raw)
      × (raw ≡ e.name ++ b'=' ∷ e.value)
      × (any (λ c. c == 0) raw ≡ false)
      × (e.name ≢ [])
unfolding parse_environment_entry
parse_environment_entry_sound raw e h = elim (Bool-cases (is_nil raw)) [
  | inl e1 ↦ absurd (ground arith)
  | inr e1 ↦ elim (Bool-cases (any (λ c. c == 0) raw)) [
    | inl e2 ↦ absurd (ground arith)
    | inr e2 ↦
        let (same, whole, ne) = split_entry_sound raw (cut b'=' raw) e refl (ground arith) in
        (same, whole, e2, ne)
  ]
]
