-- ===== src/Tests/Process.antt =====
-- A child's environment and a preview's budget on small inputs.
use shell_picker.Base.{
  ◌≡◌, refl, true, false, Bool, none, some, List, [], ◌∷◌, cut, codes, Bytes, bytes_eq, ok, length,
  arith,
}
use shell_picker.Process.Env.{Entry, parse_environment_entry, sanitize_env}
use shell_picker.Process.Env.Clean.{Clean}
use shell_picker.Preview.Limit.{Destination}
use shell_picker.Preview.Limit.Budget.{AllWriters, new_run, run, IsWithin, run-new_run-IsWithin}

abbrev same : Bytes → Bytes
same s = s

abbrev inherited : List Bytes
inherited = codes "PATH=/bin" ∷ codes "FZF_KEY=x" ∷ codes "LANG=C" ∷ codes "broken" ∷ []

abbrev controlled : List (Bytes × Bytes)
controlled = (codes "LANG", codes "en") ∷ []

-- What is blocked, malformed or replaced is gone.
sanitized :
    sanitize_env same bytes_eq false inherited controlled ≡ codes "PATH=/bin" ∷ codes "LANG=en" ∷ []
unfolding sanitize_env cut
sanitized = refl

abbrev path_entry : Entry
path_entry = record { raw = codes "PATH=/bin"; name = codes "PATH"; value = codes "/bin" }

path_parsed : parse_environment_entry (codes "PATH=/bin") ≡ ok path_entry
unfolding parse_environment_entry cut
path_parsed = refl

-- A writer that takes everything, and one that fails at once.
abbrev whole : Destination
whole text = (length text, none)

abbrev broken : Destination
broken text = (0, some 5)

abbrev writes : List (Bool × Destination × Bytes)
writes =
    (true, whole, codes "four") ∷ (false, broken, codes "error") ∷ (true, whole, codes "more") ∷ []

writes-AllWriters : AllWriters writes
writes-AllWriters = ((λ text. omega arith), ((λ text. omega arith), ((λ text. omega arith), tt)))

run-new_run-IsWithin_example : IsWithin 6 (run writes (new_run 6))
run-new_run-IsWithin_example = run-new_run-IsWithin 6 writes writes-AllWriters
