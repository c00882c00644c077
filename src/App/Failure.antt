-- ===== src/App/Failure.antt =====
-- Go's error values as internal/app/enrichment_lifecycle.go joins them. An error is identified by
-- the address it was allocated at, which is what `==` compares.
use shell_picker.Base.{
  ℕ, ◌≡◌, Bool, true, false, ◌||◌, ◌==◌, if◌then◌else◌, Option, none, some, arith,
}

pub data Failure : Type 0 where
  plain : ℕ → Failure
  -- An error made by fmt.Errorf with %w, or another whose Unwrap returns one error.
  wrapped : ℕ → Failure → Failure
  -- errors.Join of two errors.
  joined : ℕ → Failure → Failure → Failure

-- `context.Canceled` and `context.DeadlineExceeded`.
abbrev pub canceled : Failure
canceled = plain 1

abbrev pub deadline_exceeded : Failure
deadline_exceeded = plain 2

-- `fzf.ErrInputClosed`, `sessionipc.ErrInvalidLoad` and the errors of enrichment.go.
abbrev pub input_closed_error : Failure
input_closed_error = plain 3

abbrev pub invalid_load : Failure
invalid_load = plain 4

abbrev pub callback_application_failed : Failure
callback_application_failed = plain 5

abbrev pub zero_base : Failure
zero_base = plain 6

abbrev pub already_activated : Failure
already_activated = plain 7

abbrev pub inactive : Failure
inactive = plain 8

abbrev pub address : Failure → ℕ
address (plain a) = a
address (wrapped a e) = a
address (joined a e f) = a

abbrev pub same_error : Failure → Failure → Bool
same_error e f = address e == address f

-- `errors.Is`.
unfoldable pub errors_is : Failure → Failure → Bool
errors_is (plain a) t = same_error (plain a) t
errors_is (wrapped a e) t = let rest = errors_is e t in same_error (wrapped a e) t || rest
errors_is (joined a e f) t =
    let left = errors_is e t in
    let right = errors_is f t in same_error (joined a e f) t || left || right

abbrev join_present : ℕ → Failure → Failure → Failure
join_present fresh existing incoming =
    if errors_is existing incoming
    then existing
    else if errors_is incoming existing
    then incoming
    else joined fresh existing incoming

-- `joinLifecycleErrors`; `fresh` is the address of the error that errors.Join may allocate.
unfoldable pub join_lifecycle_errors : ℕ → Option Failure → Option Failure → Option Failure
join_lifecycle_errors fresh existing none = existing
join_lifecycle_errors fresh none (some incoming) = some incoming
join_lifecycle_errors fresh (some existing) (some incoming) =
    some (join_present fresh existing incoming)

-- `errors.Is` on an error that may be nil.
abbrev pub holds : Option Failure → Failure → Bool
holds none t = false
holds (some e) t = errors_is e t

same_error_refl : (e : Failure) → same_error e e ≡ true
same_error_refl e = ground arith

pub errors_is_refl : (e : Failure) → errors_is e e ≡ true
unfolding errors_is
errors_is_refl (plain a) = same_error_refl (plain a)
errors_is_refl (wrapped a e) = ground (arith, same_error_refl (wrapped a e))
errors_is_refl (joined a e f) = ground (arith, same_error_refl (joined a e f))

joined-holds :
    (fresh : ℕ) (e f : Failure)
    → (errors_is (joined fresh e f) e ≡ true) × (errors_is (joined fresh e f) f ≡ true)
unfolding errors_is
joined-holds fresh e f = ground (arith, errors_is_refl e, errors_is_refl f)

-- Joining loses neither error: whichever of the two errors is there is found in the result by
-- errors.Is, and the result is nil only if both are.
pub join_lifecycle_errors-holds :
    (fresh : ℕ) (existing incoming : Option Failure)
    → let both = join_lifecycle_errors fresh existing incoming in
      ((e : Failure) → existing ≡ some e → holds both e ≡ true)
      × ((e : Failure) → incoming ≡ some e → holds both e ≡ true)
      × (both ≡ none → (existing ≡ none) × (incoming ≡ none))
unfolding join_lifecycle_errors
join_lifecycle_errors-holds fresh none none = ground arith
join_lifecycle_errors-holds fresh none (some f) = ground (arith, errors_is_refl f)
join_lifecycle_errors-holds fresh (some e) none = ground (arith, errors_is_refl e)
join_lifecycle_errors-holds fresh (some e) (some f) =
    ground (arith, errors_is_refl e, errors_is_refl f, joined-holds fresh e f)
