-- ===== src/Protocol/Record/RoundTrip.antt =====
-- Parsing a record (internal/protocol/codec.go, ParseRecord) is the inverse of printing it.
use shell_picker.Base.{
  ◌≡◌, ◌≢◌, refl, some, [], ◌∷◌, ◌++◌, Bytes, bytes_eq_refl, eq_of_bytes_eq, count, count-append,
  cut-append, ok, true, arith, All, codes,
}
use shell_picker.Protocol.Types.{
  Kind, local, directory, file, zoxide, drive, virtual, other_kind, kind_text, kind_of, valid_kind,
  virtual_drives_target,
}
use shell_picker.Protocol.Base64.{encode_path, decode_path, IsByte, IsSymbol}
use shell_picker.Protocol.Base64.RoundTrip.{encode_path-IsSymbol, decode_path-encode_path}
use shell_picker.Protocol.Record.{
  WireRecord, tab, record_bytes, check_wire, parse_rest, parse_fields, parse_record,
}

-- The texts without a separator of the format.
abbrev pub IsPlain : Bytes → Type 0
IsPlain s = (count 0 s ≡ 0) × (count tab s ≡ 0)

-- A record that the wire can carry.
pub record IsWire (w : WireRecord) : Type 0 where
  pub kind_valid : valid_kind w.kind ≡ true
  pub display_plain : IsPlain w.display
  pub path : Bytes
  pub path_bytes : All IsByte path
  pub path_ne_nil : path ≢ []
  pub payload_eq : w.payload ≡ encode_path path
  pub virtual_path : w.kind ≡ virtual → path ≡ virtual_drives_target

pub count-IsSymbol : (s : Bytes) → All IsSymbol s → IsPlain s
count-IsSymbol [] h = (refl, refl)
count-IsSymbol (c ∷ s) h = ground (arith, count-IsSymbol s h.1)

kind_text-IsPlain : (k : Kind) → valid_kind k ≡ true → IsPlain (kind_text k)
unfolding kind_text valid_kind
kind_text-IsPlain (other_kind t) h = cc
kind_text-IsPlain _ h = (refl, refl)

pub kind_of-kind_text : (k : Kind) → valid_kind k ≡ true → kind_of (kind_text k) ≡ k
unfolding kind_of kind_text valid_kind
kind_of-kind_text (other_kind t) h = cc
kind_of-kind_text local h = refl
kind_of-kind_text directory h = refl
kind_of-kind_text file h = refl
kind_of-kind_text zoxide h = refl
kind_of-kind_text drive h = refl
kind_of-kind_text virtual h = refl

pub kind_text-kind_of : (t : Bytes) → kind_text (kind_of t) ≡ t
unfolding kind_of kind_text
kind_text-kind_of t = ground (
  arith,
  eq_of_bytes_eq t (codes "local"),
  eq_of_bytes_eq t (codes "directory"),
  eq_of_bytes_eq t (codes "file"),
  eq_of_bytes_eq t (codes "zoxide"),
  eq_of_bytes_eq t (codes "drive"),
  eq_of_bytes_eq t (codes "virtual"),
)

check_wire-IsWire : (w : WireRecord) → IsWire w → check_wire w ≡ ok w
unfolding check_wire
check_wire-IsWire w h = ground (
  arith,
  decode_path-encode_path h.path h.path_bytes h.path_ne_nil,
  bytes_eq_refl (encode_path h.path),
  bytes_eq_refl virtual_drives_target,
)

payload-IsPlain : (w : WireRecord) → IsWire w → IsPlain w.payload
payload-IsPlain w h =
    rw h.payload_eq (count-IsSymbol (encode_path h.path) (encode_path-IsSymbol h.path h.path_bytes))

-- The text of a record has no NUL and just two tabs.
pub count-record_bytes :
    (w : WireRecord) → IsWire w → (count 0 (record_bytes w) ≡ 0) × (count tab (record_bytes w) ≡ 2)
unfolding record_bytes
count-record_bytes w h =
    let k = kind_text-IsPlain w.kind h.kind_valid in
    let p = payload-IsPlain w h in
    (
      omega (
        arith,
        count-append 0 (kind_text w.kind) (tab ∷ (w.display ++ (tab ∷ w.payload))),
        count-append 0 w.display (tab ∷ w.payload),
        h.display_plain,
      ),
      omega (
        arith,
        count-append tab (kind_text w.kind) (tab ∷ (w.display ++ (tab ∷ w.payload))),
        count-append tab w.display (tab ∷ w.payload),
        h.display_plain,
      ),
    )

-- A record that the wire can carry is read back from its text.
pub parse_record-record_bytes : (w : WireRecord) → IsWire w → parse_record (record_bytes w) ≡ ok w
unfolding parse_record
parse_record-record_bytes w h =
    let c = count-record_bytes w h in
    rw (c.0, c.1)
      unfold record_bytes in
        rw
          (cut-append tab (kind_text w.kind) (w.display ++ (tab ∷ w.payload))
            (kind_text-IsPlain w.kind h.kind_valid).1)
          unfold parse_fields in
            rw (cut-append tab w.display w.payload h.display_plain.1)
              unfold parse_rest in
                rw (kind_of-kind_text w.kind h.kind_valid) (check_wire-IsWire w h)

-- What ParseRecord promises of an accepted record: its kind is one of the six, its payload is the
-- canonical encoding of a path, and a virtual one names the drives.
abbrev pub IsAccepted : WireRecord → Type 0
IsAccepted w =
    (valid_kind w.kind ≡ true)
    × ((p : Bytes) × (decode_path w.payload ≡ some p)
        × (encode_path p ≡ w.payload)
        × (w.kind ≡ virtual → p ≡ virtual_drives_target))
