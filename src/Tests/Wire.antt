-- ===== src/Tests/Wire.antt =====
-- Paths, displays and records on the wire at concrete inputs.
use shell_picker.Base.{ℕ, ◌≡◌, refl, Bool, true, false, [], ◌∷◌, Bytes, codes, leb, arith, All, ok}
use shell_picker.Protocol.Types.{directory, valid_kind}
use shell_picker.Protocol.Base64.{IsByte, encode_path}
use shell_picker.Protocol.Display.{escape_display}
use shell_picker.Protocol.Display.Plain.{IsText}
use shell_picker.Protocol.Display.Lossless.{unescape, unescape-escape_display}
use shell_picker.Protocol.Record.{WireRecord, record_bytes, parse_record}
use shell_picker.Protocol.Record.RoundTrip.{IsWire, parse_record-record_bytes}
use shell_picker.Pathutil.Location.{at_path, prompt_display_home}
use shell_picker.Pathutil.Location.Plain.{header_plain}
use shell_picker.Fzf.Action.{has_control}

abbrev printable : ℕ → Bool
printable c = leb 32 c

printable-IsText : (c : ℕ) → printable c ≡ true → IsText c
printable-IsText c h = ground arith

-- A path with a tab and a backslash.
abbrev odd_path : Bytes
odd_path = b'/' ∷ b'a' ∷ 9 ∷ b'\\' ∷ []

odd_path-IsByte : All IsByte odd_path
odd_path-IsByte = ground arith

unescape-escape_display_example : unescape (escape_display printable odd_path) ≡ odd_path
unescape-escape_display_example = unescape-escape_display printable odd_path odd_path-IsByte

header_plain_example :
    has_control (prompt_display_home printable (at_path odd_path) (at_path (codes "/home"))) ≡ false
header_plain_example =
    header_plain printable printable-IsText (at_path odd_path) (at_path (codes "/home"))

abbrev entry : WireRecord
entry = record { kind = directory; display = codes "a\\x09"; payload = encode_path odd_path }

entry-IsWire : IsWire entry
unfolding valid_kind
entry-IsWire = record {
  kind_valid = refl;
  display_plain = (refl, refl);
  path = odd_path;
  path_bytes = odd_path-IsByte;
  path_ne_nil = λ e. cc;
  payload_eq = refl;
  virtual_path = λ e. cc;
}

parse_record-record_bytes_example : parse_record (record_bytes entry) ≡ ok entry
parse_record-record_bytes_example = parse_record-record_bytes entry entry-IsWire
