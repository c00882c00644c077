-- ===== src/Fzfsidecar/Pages/Bounded.antt =====
-- The loop over the pages ends (internal/fzfsidecar/state_client.go).
use shell_picker.Base.{
  ℕ, ◌+◌, ◌<◌, ◌≤◌, leb, Bool-cases, inl, inr, ◌≡◌, refl, true, Result, ok, err, is_some, arith,
}
use shell_picker.Protocol.Types.{Picker, cd, cp, other_picker}
use shell_picker.Fzfsidecar.State.{StateError, State, new_state}
use shell_picker.Fzfsidecar.Pages.{
  Page, Server, Answer, finished, if_valid, accept_page, pages_from, state_of_page, first_page,
  get_state, max_pages,
}

abbrev Ends : Answer → Type 0
Ends a = is_some a ≡ true

finished-Ends : (r : Result StateError State) → Ends (finished r)
finished-Ends (ok s) = refl
finished-Ends (err e) = refl

if_valid-Ends : (r : Result StateError State) (a : Answer) → Ends a → Ends (if_valid r a)
if_valid-Ends (ok s) a h = h
if_valid-Ends (err e) a h = refl

accept_page-Ends :
    (m t s : ℕ) (r : Result ℕ Page) (continue : Page → Answer)
    → ((page : Page) → Ends (continue page))
    → Ends (accept_page m t s r continue)
accept_page-Ends m t s (err e) continue h = refl
accept_page-Ends m t s (ok page) continue h =
    ground (arith, if_valid-Ends (new_state cp m t (s + page.selected)) (continue page) (h page))

pages_from-Ends :
    (fuel : ℕ) (picker : Picker) (server : Server) (count : ℕ) (page : Page) (m t s o : ℕ)
    → count ≤ max_pages
    → max_pages < count + fuel
    → Ends (pages_from fuel picker server count page m t s o)
unfolding pages_from
pages_from-Ends ℕ.zero picker server count page m t s o c h = absurd (omega arith)
pages_from-Ends (ℕ.suc fuel) picker server count page m t s o c h =
    elim (Bool-cases (leb max_pages count)) [
      | inl full ↦ ground (arith, finished-Ends (new_state picker m t s))
      | inr room ↦
          let bound : count + 1 ≤ max_pages = ground arith in
          ground (
            arith,
            finished-Ends (new_state picker m t s),
            accept_page-Ends m t s (server.fetch count o)
                (λ next.
                  pages_from fuel picker server (count + 1) next m t (s + next.selected)
                    (o + next.selected))
                (λ next.
                  pages_from-Ends fuel picker server (count + 1) next m t (s + next.selected)
                    (o + next.selected) bound (omega arith)),
          )
    ]

state_of_page-Ends :
    (picker : Picker) (server : Server) (page : Page) → Ends (state_of_page picker server page)
state_of_page-Ends cd server page = finished-Ends (new_state cd page.matched page.total 0)
state_of_page-Ends cp server page =
    pages_from-Ends max_pages cp server 1 page _ _ _ _ (omega arith) (omega arith)
state_of_page-Ends other_picker server page =
    pages_from-Ends max_pages other_picker server 1 page _ _ _ _ (omega arith) (omega arith)

first_page-Ends :
    (picker : Picker) (server : Server) (r : Result ℕ Page) → Ends (first_page picker server r)
first_page-Ends picker server (err e) = ground arith
first_page-Ends picker server (ok page) = ground (
  arith,
  if_valid-Ends (new_state cp page.matched page.total page.selected)
      (state_of_page picker server page) (state_of_page-Ends picker server page),
)

-- A snapshot ends, whatever the server answers: the fuel of maxSelectedPages turns is enough, since
-- the loop refuses a further page after that many.
pub get_state-ends : (picker : Picker) (server : Server) → is_some (get_state picker server) ≡ true
unfolding get_state
get_state-ends picker server = first_page-Ends picker server (server.fetch 0 0)
