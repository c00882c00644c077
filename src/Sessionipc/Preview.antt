-- ===== src/Sessionipc/Preview.antt =====
-- internal/sessionipc/dto.go: the requests of previews and their check.
use shell_picker.Base.{
  ℕ, Bool, true, false, not, ◌&&◌, ◌||◌, ◌==◌, leb, [], ◌∷◌, Bytes, bytes_eq, codes, all, length,
  Result, err, guard, ◌>>◌,
}

-- Go's int, as far as a request can hold it.
pub data ℤ : Type 0 where
  pos negsuc : ℕ → ℤ

abbrev pub is_zero : ℤ → Bool
is_zero (pos n) = n == 0
is_zero (negsuc n) = false

-- From 0 to the maximum.
abbrev pub within : ℤ → ℕ → Bool
within (pos n) maximum = leb n maximum
within (negsuc n) maximum = false

abbrev pub leb_ℤ : ℤ → ℤ → Bool
leb_ℤ (pos m) (pos n) = leb m n
leb_ℤ (pos m) (negsuc n) = false
leb_ℤ (negsuc m) (pos n) = true
leb_ℤ (negsuc m) (negsuc n) = leb n m

pub data Phase : Type 0 where
  resolve started finished other_phase : Phase

pub record PreviewRequest : Type 0 where
  pub phase : Phase
  pub current_item_base64 : Bytes
  pub renderer : Bytes
  pub duration_us : ℤ
  pub child_starts : ℤ
  pub max_live_children : ℤ
  pub outcome : Bytes

abbrev pub max_preview_child_starts : ℕ
max_preview_child_starts = 3

abbrev pub max_preview_live_children : ℕ
max_preview_live_children = 1

-- Ten seconds.
abbrev pub max_duration_us : ℕ
max_duration_us = 10000000

abbrev pub no_text : Bytes → Bool
no_text [] = true
no_text (c ∷ s) = false

-- `validTelemetryValue`.
unfoldable pub valid_telemetry_value : Bytes → Bool
valid_telemetry_value value =
    not (no_text value) && leb (length value) 64 && all (λ c. leb 0x21 c && leb c 0x7e) value

pub data PreviewError : Type 0 where
  missing_item invalid_resolve invalid_started invalid_finished invalid_phase : PreviewError

-- No measurement is set.
abbrev pub unmeasured : PreviewRequest → Bool
unmeasured r =
    is_zero r.duration_us
    && is_zero r.child_starts
    && is_zero r.max_live_children
    && no_text r.outcome

abbrev pub no_children : PreviewRequest → Bool
no_children r = is_zero r.child_starts && is_zero r.max_live_children

abbrev pub measured : PreviewRequest → Bool
measured r =
    within r.duration_us max_duration_us
    && within r.child_starts max_preview_child_starts
    && within r.max_live_children max_preview_live_children
    && leb_ℤ r.max_live_children r.child_starts
    && (not (bytes_eq r.renderer (codes "native")) || no_children r)

abbrev pub validate_phase : Phase → PreviewRequest → Result PreviewError (Unit {0})
validate_phase resolve r = guard (no_text r.renderer && unmeasured r) invalid_resolve
validate_phase started r = guard (valid_telemetry_value r.renderer && unmeasured r) invalid_started
validate_phase finished r =
    guard (valid_telemetry_value r.renderer && valid_telemetry_value r.outcome && measured r)
      invalid_finished
validate_phase other_phase r = err invalid_phase

-- `validatePreview`.
unfoldable pub validate_preview : PreviewRequest → Result PreviewError (Unit {0})
validate_preview r =
    guard (not (no_text r.current_item_base64)) missing_item >> validate_phase r.phase r
