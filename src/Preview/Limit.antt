-- ===== src/Preview/Limit.antt =====
-- internal/preview/limit.go: the limits, the output budget that the writers of a preview share, and
-- the helpers on MIME types and environments (on Unix). The mutex makes a write one step.
pub mod Budget
use shell_picker.Base.{
  ℕ, ◌+◌, ◌-◌, ◌*◌, ◌^◌, Bool, true, false, not, ◌&&◌, ◌||◌, ◌==◌, ltb, if◌then◌else◌, Option, none,
  some, List, [], ◌∷◌, Bytes, bytes_eq, codes, take, length, cut, any,
}
use shell_picker.Pathutil.Location.{has_prefix}

-- `Limits`; a value that is not positive stands for the default, as 0 does here. The deadline is in
-- seconds.
pub record Limits : Type 0 where
  pub deadline : ℕ
  pub max_output_bytes : ℕ
  pub max_internal_input_bytes : ℕ
  pub max_internal_lines : ℕ
  pub max_archive_entries : ℕ
  pub max_archive_decompressed_bytes : ℕ
  pub max_artifact_bytes : ℕ

abbrev pub default_limits : Limits
default_limits = record {
  deadline = 10;
  max_output_bytes = 4 * 2 ^ 20;
  max_internal_input_bytes = 4 * 2 ^ 20;
  max_internal_lines = 10000;
  max_archive_entries = 100;
  max_archive_decompressed_bytes = 4 * 2 ^ 20;
  max_artifact_bytes = 64 * 2 ^ 20;
}

abbrev or_default : ℕ → ℕ → ℕ
or_default n fallback = if n == 0 then fallback else n

-- `normalizedLimits`.
unfoldable pub normalized_limits : Limits → Limits
normalized_limits l = record {
  deadline = or_default l.deadline default_limits.deadline;
  max_output_bytes = or_default l.max_output_bytes default_limits.max_output_bytes;
  max_internal_input_bytes =
      or_default l.max_internal_input_bytes default_limits.max_internal_input_bytes;
  max_internal_lines = or_default l.max_internal_lines default_limits.max_internal_lines;
  max_archive_entries = or_default l.max_archive_entries default_limits.max_archive_entries;
  max_archive_decompressed_bytes =
      or_default l.max_archive_decompressed_bytes default_limits.max_archive_decompressed_bytes;
  max_artifact_bytes = or_default l.max_artifact_bytes default_limits.max_artifact_bytes;
}

-- `outputBudget`, and the counters of a `budgetWriter`.
pub record OutputBudget : Type 0 where
  pub remaining : ℕ
  pub written : ℕ
  pub exceeded : Bool

pub record BudgetWriter : Type 0 where
  pub written : ℕ
  pub meaningful : ℕ

abbrev pub new_output_budget : ℕ → OutputBudget
new_output_budget maximum = record { remaining = maximum; written = 0; exceeded = false }

abbrev pub new_writer : BudgetWriter
new_writer = record { written = 0; meaningful = 0 }

-- An io.Writer: how many of the bytes it takes, and its error.
abbrev pub Destination : Type 0
Destination = Bytes → ℕ × Option ℕ

pub data WriteError : Type 0 where
  output_limit : WriteError
  write_failed : ℕ → WriteError

-- What Write returns, with the number of calls of `onLimit`.
pub record Written : Type 0 where
  pub budget : OutputBudget
  pub writer : BudgetWriter
  pub count : ℕ
  pub failure : Option WriteError
  pub limit_calls : ℕ

abbrev is_blank : ℕ → Bool
is_blank c = c == 32 || c == 9 || c == 10 || c == 13 || c == 11 || c == 12

abbrev pub meaningful_in : Bytes → ℕ
meaningful_in [] = 0
meaningful_in (c ∷ s) = if is_blank c then meaningful_in s else meaningful_in s + 1

-- `limitReachedLocked`: the callback runs once.
abbrev limit_reached : OutputBudget → BudgetWriter → ℕ → Written
limit_reached b w count = record {
  budget = record b { exceeded = true };
  writer = w;
  count = count;
  failure = some output_limit;
  limit_calls = if b.exceeded then 0 else 1;
}

abbrev finish_write : Bool → OutputBudget → BudgetWriter → ℕ → Option ℕ → Written
finish_write over b w count (some e) = record {
  budget = b;
  writer = w;
  count = count;
  failure = some (write_failed e);
  limit_calls = 0;
}
finish_write over b w count none =
    if over
    then limit_reached b w count
    else record { budget = b; writer = w; count = count; failure = none; limit_calls = 0 }

-- After the destination took `count` bytes.
abbrev pub write_some : Bool → ℕ → Bytes → OutputBudget → BudgetWriter → ℕ × Option ℕ → Written
write_some limited allowed text b w (count, failure) =
    finish_write (limited && count == allowed)
      (record b { remaining = b.remaining - count; written = b.written + count })
      (record w {
        written = w.written + count;
        meaningful = w.meaningful + meaningful_in (take count text);
      })
      count failure

-- `budgetWriter.Write`.
unfoldable pub write : Destination → Bytes → OutputBudget → BudgetWriter → Written
write destination text b w =
    let limited = ltb b.remaining (length text) in
    let allowed = if limited then b.remaining else length text in
    if b.remaining == 0
    then limit_reached b w 0
    else write_some limited allowed text b w (destination (take allowed text))

-- `environmentValue`, on Unix: the first entry with the name.
abbrev value_if : Bytes → Option (Bytes × Bytes) → Bytes → Bytes
value_if name none rest = rest
value_if name (some (key, value)) rest = if bytes_eq key name then value else rest

unfoldable pub environment_value : List Bytes → Bytes → Bytes
environment_value [] name = []
environment_value (entry ∷ entries) name =
    value_if name (cut b'=' entry) (environment_value entries name)

-- `Category`, as far as MIME types tell.
pub data Category : Type 0 where
  markdown text image pdf video audio zip gzip xz tar bzip other_category : Category

-- `categoryFromMIME`.
unfoldable pub category_from_mime : Bytes → Category → Category
category_from_mime mime fallback =
    if bytes_eq mime (codes "text/markdown")
    then markdown
    else if has_prefix mime (codes "text/")
    then text
    else if has_prefix mime (codes "image/")
    then image
    else if bytes_eq mime (codes "application/pdf")
    then pdf
    else if has_prefix mime (codes "video/")
    then video
    else if has_prefix mime (codes "audio/")
    then audio
    else if bytes_eq mime (codes "application/zip")
    then zip
    else if bytes_eq mime (codes "application/gzip") || bytes_eq mime (codes "application/x-gzip")
    then gzip
    else if bytes_eq mime (codes "application/x-xz")
    then xz
    else if bytes_eq mime (codes "application/x-tar")
    then tar
    else if bytes_eq mime (codes "application/x-bzip2")
    then bzip
    else fallback
