-- ===== src/Fzfsidecar/Pages/Exact.antt =====
-- What a snapshot counts (internal/fzfsidecar/state_client.go).
use shell_picker.Base.{
  ℕ, ◌+◌, ◌-◌, ◌*◌, ◌<◌, ◌≤◌, ◌≡◌, false, some, Result, ok, arith, ltb, if◌then◌else◌, Bool-cases,
  inl, inr, ap, ◌∙◌,
}
use shell_picker.Protocol.Types.{Picker, cp}
use shell_picker.Callback.Finder.{max_count, validate_counts, valid_count, format, count_text}
use shell_picker.Fzfsidecar.State.{State, new_state, rendered_label, validate}
use shell_picker.Fzfsidecar.Pages.{
  Page, Server, Answer, accept_page, fails, state_too_large, pages_from, first_page, get_state,
  max_pages, page_size,
}

-- A page of at most 100 of the items that are left.
abbrev pub page_of : ℕ → ℕ
page_of left = if ltb left page_size then left else page_size

-- The server holds `n` selected items and consistent counts, and no context ends.
pub record Serves (server : Server) (m t n : ℕ) : Type 0 where
  pub answers :
      (count offset : ℕ)
      → server.fetch count offset
        ≡ ok (record { matched = m; total = t; selected = page_of (n - offset) })
  pub goes_on : (count : ℕ) → server.cycle_done count ≡ false

abbrev pub state_of : Picker → ℕ → ℕ → ℕ → State
state_of p m t n = record {
  picker = p;
  matched = m;
  total = t;
  selected = n;
  formatted = count_text p m t n;
}

new_state-valid :
    (m t n : ℕ) → m ≤ t → n ≤ t → t ≤ max_count → new_state cp m t n ≡ ok (state_of cp m t n)
unfolding new_state rendered_label validate validate_counts valid_count format
new_state-valid m t n h i k = ground arith

-- The items that a snapshot can hold.
abbrev pub capacity : ℕ
capacity = page_size * max_pages

abbrev pub expected : ℕ → ℕ → ℕ → Answer
expected m t n = if ltb n capacity then some (ok (state_of cp m t n)) else fails state_too_large

accept_page-valid :
    (m t o sel : ℕ) (r : Result ℕ Page) (continue : Page → Answer)
    → r ≡ ok (record { matched = m; total = t; selected = sel })
    → sel ≤ page_size
    → m ≤ t
    → o + sel ≤ t
    → t ≤ max_count
    → accept_page m t o r continue ≡ continue (record { matched = m; total = t; selected = sel })
accept_page-valid m t o sel r continue e hs hm hn ht =
    let page : Page = record { matched = m; total = t; selected = sel } in
    ap (λ x. accept_page m t o x continue) e
    ∙ ground (arith, new_state-valid m t (o + sel) hm hn ht)

pages_from-expected :
    (fuel q : ℕ) (server : Server) (page : Page) (m t n o : ℕ)
    → Serves server m t n
    → m ≤ t
    → n ≤ t
    → t ≤ max_count
    → q < max_pages
    → max_pages ≤ q + fuel
    → q * page_size ≤ n
    → page.selected ≡ page_of (n - q * page_size)
    → o ≡ q * page_size + page.selected
    → pages_from fuel cp server (q + 1) page m t o o ≡ expected m t n
unfolding pages_from
pages_from-expected ℕ.zero q server page m t n o s hm hn ht hq hf hl hp ho = absurd (omega arith)
pages_from-expected (ℕ.suc fuel) q server page m t n o s hm hn ht hq hf hl hp ho =
    elim (Bool-cases (ltb (n - q * page_size) page_size)) [
      | inl short ↦
          let whole : o ≡ n = ground arith in
          ground (arith, new_state-valid m t o hm (omega arith) ht)
      | inr full ↦ elim (Bool-cases (ltb (q + 1) max_pages)) [
        | inl more ↦
            let next : Page = record { matched = m; total = t; selected = page_of (n - o) } in
            let left : o ≡ (q + 1) * page_size = ground arith in
            ground (
              arith,
              s.goes_on (q + 1),
              accept_page-valid m t o (page_of (n - o)) (server.fetch (q + 1) o)
                  (λ p.
                    pages_from fuel cp server (q + 1 + 1) p m t (o + p.selected) (o + p.selected))
                  (s.answers (q + 1) o) (ground arith) hm (ground arith) ht,
              pages_from-expected fuel (q + 1) server next m t n (o + next.selected) s hm hn ht
                  (ground arith) (omega arith) (ground arith) (ap (λ x. page_of (n - x)) left)
                  (ap (λ x. x + next.selected) left),
            )
        | inr over ↦ ground arith
      ]
    ]

first_page-valid :
    (server : Server) (m t n : ℕ) (r : Result ℕ Page)
    → Serves server m t n
    → m ≤ t
    → n ≤ t
    → t ≤ max_count
    → r ≡ ok (record { matched = m; total = t; selected = page_of (n - 0) })
    → first_page cp server r ≡ expected m t n
first_page-valid server m t n r s hm hn ht e =
    let page : Page = record { matched = m; total = t; selected = page_of (n - 0) } in
    ap (first_page cp server) e
    ∙ ground (
      arith,
      s.goes_on 1,
      new_state-valid m t (page_of (n - 0)) hm (ground arith) ht,
      pages_from-expected max_pages 0 server page m t n (page_of (n - 0)) s hm hn ht (omega arith)
          (omega arith) (omega arith) (ap page_of {x = n - 0} {y = n - 0 * page_size} (omega arith))
          (omega arith),
    )

-- Over a server that holds `n` selected items and serves them in pages, a snapshot for cp counts all
-- of them when there are fewer than 10,000, and fails as too large from there on.
pub get_state-expected :
    (server : Server) (m t n : ℕ)
    → Serves server m t n
    → m ≤ t
    → n ≤ t
    → t ≤ max_count
    → get_state cp server ≡ expected m t n
unfolding get_state
get_state-expected server m t n s hm hn ht =
    first_page-valid server m t n (server.fetch 0 0) s hm hn ht (s.answers 0 0)
