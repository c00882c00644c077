-- ===== src/Fzf/Output.antt =====
-- internal/fzf/output.go: what fzf printed, cut into frames and read as a selection.
pub mod Frames
pub mod Reads
use Prim.Native.String.{String}
use shell_picker.Base.{
  ℕ, Bool, true, false, not, ◌==◌, ◌||◌, if◌then◌else◌, List, [], ◌∷◌, Bytes, codes, bytes_eq, all,
  Result, ok, err, guard, ◌>>=◌, ◌>>◌,
}
use shell_picker.Protocol.Types.{Picker, cd, cp, other_picker}

-- The exit code of a process, Go's `int`.
pub data ℤ : Type 0 where
  pos negsuc : ℕ → ℤ

-- `Result` of the file.
pub record Selection : Type 0 where
  pub query : Bytes
  pub key : Bytes
  pub records : List Bytes
  pub aborted : Bool
  pub exit_code : ℤ

pub data OutputError : Type 0 where
  invalid_picker unexpected_exit no_match trailing_bytes malformed_abort malformed_acceptance
        unsupported_key empty_record :
      OutputError

abbrev push : ℕ → List Bytes → List Bytes
push c [] = (c ∷ []) ∷ []
push c (p ∷ ps) = (c ∷ p) ∷ ps

-- `bytes.Split(s, []byte{0})`.
unfoldable pub split_nul : Bytes → List Bytes
split_nul [] = [] ∷ []
split_nul (c ∷ cs) = let rest = split_nul cs in if c == 0 then [] ∷ rest else push c rest

-- The last byte of a text that has one, and what stands before it.
unfoldable pub last : ℕ → Bytes → ℕ
last c [] = c
last c (d ∷ ds) = last d ds

unfoldable pub init : ℕ → Bytes → Bytes
init c [] = []
init c (d ∷ ds) = c ∷ init d ds

-- `nulFrames`.
unfoldable pub nul_frames : Bytes → Result OutputError (List Bytes)
nul_frames [] = ok []
nul_frames (c ∷ cs) = if last c cs == 0 then ok (split_nul (init c cs)) else err trailing_bytes

abbrev pub enter_key : Bytes
enter_key = codes "enter"

abbrev is_exit : ℕ → ℤ → Bool
is_exit n (pos m) = m == n
is_exit n (negsuc m) = false

abbrev is_picker : Picker → Bool
is_picker other_picker = false
is_picker _ = true

abbrev pub aborted_selection : Bytes → Selection
aborted_selection query = record {
  query = query;
  key = [];
  records = [];
  aborted = true;
  exit_code = pos 130;
}

-- The frames of an aborted run.
unfoldable pub parse_abort : Picker → List Bytes → Result OutputError Selection
parse_abort cd [] = ok (aborted_selection [])
parse_abort cd (query ∷ []) = ok (aborted_selection query)
parse_abort cd _ = err malformed_abort
parse_abort cp [] = ok (aborted_selection [])
parse_abort cp _ = err malformed_abort
parse_abort other_picker _ = ok (aborted_selection [])

abbrev is_frame : Bytes → Bool
is_frame [] = false
is_frame (c ∷ cs) = true

abbrev pub accepted_selection : ℤ → Bytes → Bytes → List Bytes → Selection
accepted_selection code query key records = record {
  query = query;
  key = key;
  records = records;
  aborted = false;
  exit_code = code;
}

unfoldable pub accept_frames : ℤ → Bytes → Bytes → List Bytes → Result OutputError Selection
accept_frames code query key records = do
  guard (bytes_eq key enter_key) unsupported_key
  guard (all is_frame records) empty_record
  ok (accepted_selection code query key records)

-- The frames of an accepted selection.
unfoldable pub parse_acceptance : Picker → ℤ → List Bytes → Result OutputError Selection
unfolding accept_frames
parse_acceptance cd code (query ∷ key ∷ r ∷ []) = accept_frames code query key (r ∷ [])
parse_acceptance cd code _ = err malformed_acceptance
parse_acceptance cp code (key ∷ r ∷ rs) = accept_frames code [] key (r ∷ rs)
parse_acceptance cp code _ = err malformed_acceptance
parse_acceptance other_picker code _ = accept_frames code [] [] []

abbrev parse_frames : Picker → ℤ → List Bytes → Result OutputError Selection
parse_frames picker code fs =
    if is_exit 130 code then parse_abort picker fs else parse_acceptance picker code fs

abbrev check_exit : ℤ → Result OutputError (List Bytes) → Result OutputError (List Bytes)
check_exit code fs = do
  guard (is_exit 0 code || is_exit 1 code || is_exit 130 code) unexpected_exit
  guard (not (is_exit 1 code)) no_match
  fs

-- `ParseOutput`.
unfoldable pub parse_output : Picker → Bytes → ℤ → Result OutputError Selection
parse_output picker output code = do
  guard (is_picker picker) invalid_picker
  check_exit code (nul_frames output) >>= λ fs. parse_frames picker code fs
