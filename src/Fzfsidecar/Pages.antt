-- ===== src/Fzfsidecar/Pages.antt =====
-- internal/fzfsidecar/state_client.go: a snapshot of fzf's counts, page after page. The server
-- answers each request as it likes; the diagnostics for the observer are left out.
pub mod Bounded
pub mod Exact
use shell_picker.Base.{
  ℕ, ◌+◌, ◌-◌, Bool, true, false, not, ◌||◌, ◌==◌, leb, ltb, if◌then◌else◌, Option, none, some,
  Result, ok, err,
}
use shell_picker.Protocol.Types.{Picker, cd, cp}
use shell_picker.Callback.Finder.{max_count}
use shell_picker.Fzfsidecar.State.{StateError, State, new_state}

-- `fzfPage`.
pub record Page : Type 0 where
  pub matched : ℕ
  pub total : ℕ
  pub selected : ℕ

-- The errors of getStateResult; those of one request are numbers.
pub data PageError : Type 0 where
  page_failed : ℕ → PageError
  context_canceled bad_state state_too_large inconsistent_snapshot : PageError

-- What a request is answered, by its number and offset, and whether the caller's context and that
-- of the cycle are done after that many requests.
pub record Server : Type 0 where
  pub fetch : ℕ → ℕ → Result ℕ Page
  pub caller_done : ℕ → Bool
  pub cycle_done : ℕ → Bool

-- `selectedPageSize` and `maxSelectedPages`.
abbrev pub page_size : ℕ
page_size = 100

abbrev pub max_pages : ℕ
max_pages = 100

-- The result, `none` where the fuel of the loop has run out.
abbrev pub Answer : Type 0
Answer = Option (Result PageError State)

abbrev pub fails : PageError → Answer
fails e = some (err e)

abbrev pub finished : Result StateError State → Answer
finished (ok s) = some (ok s)
finished (err e) = fails bad_state

abbrev pub if_valid : Result StateError State → Answer → Answer
if_valid (ok s) rest = rest
if_valid (err e) rest = fails bad_state

-- The checks of a further page.
abbrev pub accept_page : ℕ → ℕ → ℕ → Result ℕ Page → (Page → Answer) → Answer
accept_page matched total selected (err e) continue = fails (page_failed e)
accept_page matched total selected (ok page) continue =
    if not (page.matched == matched) || not (page.total == total)
    then fails inconsistent_snapshot
    else if ltb page_size page.selected
    then fails bad_state
    else if ltb (max_count - page.selected) selected
    then fails bad_state
    else if_valid (new_state cp matched total (selected + page.selected)) (continue page)

-- The loop of `getStateResult`, which goes on while pages are full.
unfoldable pub pages_from : ℕ → Picker → Server → ℕ → Page → ℕ → ℕ → ℕ → ℕ → Answer
unfolding new_state
pages_from ℕ.zero picker server count page matched total selected offset = none
pages_from (ℕ.suc fuel) picker server count page matched total selected offset =
    let further = accept_page matched total selected (server.fetch count offset) (λ next.
      pages_from fuel picker server (count + 1) next matched total (selected + next.selected)
        (offset + next.selected)) in
    if not (page.selected == page_size)
    then finished (new_state picker matched total selected)
    else if leb max_pages count
    then fails state_too_large
    else if server.cycle_done count
    then fails context_canceled
    else further

abbrev pub state_of_page : Picker → Server → Page → Answer
state_of_page cd server page = finished (new_state cd page.matched page.total 0)
state_of_page picker server page =
    pages_from max_pages picker server 1 page page.matched page.total page.selected page.selected

abbrev pub first_page : Picker → Server → Result ℕ Page → Answer
first_page picker server (err e) =
    if server.caller_done 1 then fails context_canceled else fails (page_failed e)
first_page picker server (ok page) =
    if server.cycle_done 1
    then fails context_canceled
    else if ltb page_size page.selected
    then fails bad_state
    else if_valid (new_state cp page.matched page.total page.selected)
        (state_of_page picker server page)

-- `getStateResult`.
unfoldable pub get_state : Picker → Server → Answer
unfolding new_state pages_from
get_state picker server = first_page picker server (server.fetch 0 0)
