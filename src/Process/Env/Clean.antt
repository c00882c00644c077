-- ===== src/Process/Env/Clean.antt =====
-- What a child process finds in its environment (internal/process/env.go).
use shell_picker.Base.{◌≡◌, ◌⊎◌, Bool, true, false, not, ◌&&◌, List, Bytes, bytes_eq, any, ok}
use shell_picker.Process.Env.{
  Entry, parse_environment_entry, is_drive_pseudo, blocked_key, controlled_key,
}

module _ (to_upper : Bytes → Bytes) (equal_fold : Bytes → Bytes → Bool) (windows : Bool) where
  -- An entry that was read from its text, and no drive's pseudo-entry but on Windows.
  abbrev pub IsRead : Entry → Type 0
  IsRead e =
      (parse_environment_entry e.raw ≡ ok e) × ((is_drive_pseudo e.name && not windows) ≡ false)

  abbrev pub is_set : List Entry → Bytes → Bool
  is_set entries raw = any (λ c. bytes_eq c.raw raw) entries

  -- An entry of the child: one that the picker sets, or one that is inherited, neither blocked nor
  -- of a name that the picker sets.
  abbrev pub Clean : List Entry → Bytes → Type 0
  Clean entries raw =
      (e : Entry) × (e.raw ≡ raw)
      × IsRead e
      × ((is_set entries raw ≡ true)
          ⊎ ((blocked_key to_upper equal_fold windows e.name ≡ false)
              × (controlled_key to_upper equal_fold windows entries e.name ≡ false)))
