-- ===== src/Fzf/Output/Reads.antt =====
-- What ParseOutput reads (internal/fzf/output.go), exactly.
use shell_picker.Base.{
  ◌≡◌, sym, subst, ap, ◌∙◌, true, ◌==◌, List, [], ◌∷◌, Bytes, All, Result, ok, arith, Bool-cases,
  inl, inr, ◌⊎◌, bytes_eq, eq_of_bytes_eq, ok_eq, all, guard, guard-eq-ok, >>=-eq-ok, ◌>>=◌, ◌>>◌,
}
use shell_picker.Protocol.Types.{Picker, cd, cp, other_picker}
use shell_picker.Protocol.Record.Frames.{frames}
use shell_picker.Fzf.Output.{
  nul_frames, parse_output, OutputError, Selection, parse_abort, parse_acceptance, accept_frames, ℤ,
  pos, negsuc, enter_key, is_frame, aborted_selection, accepted_selection, invalid_picker,
  is_picker, check_exit, parse_frames, unsupported_key, empty_record,
}
use shell_picker.Fzf.Output.Frames.{NoNul, nul_frames-frames, nul_frames_sound}

-- The selection that a list of frames and an exit code stand for: an abort with no frame or, for
-- cd, with the query; an acceptance by the enter key, with the query and one record for cd and
-- with one record or more for cp, none of them empty.
pub data Reads : Picker → List Bytes → ℤ → Selection → Type 0 where
  cd_quit : Reads cd [] (pos 130) (aborted_selection [])
  cd_query : {q : Bytes} → Reads cd (q ∷ []) (pos 130) (aborted_selection q)
  cp_quit : Reads cp [] (pos 130) (aborted_selection [])
  cd_enter :
      {q r : Bytes}
      → is_frame r ≡ true
      → Reads cd (q ∷ enter_key ∷ r ∷ []) (pos 0) (accepted_selection (pos 0) q enter_key (r ∷ []))
  cp_enter :
      {r : Bytes} {rs : List Bytes}
      → all is_frame (r ∷ rs) ≡ true
      → Reads cp (enter_key ∷ r ∷ rs) (pos 0) (accepted_selection (pos 0) [] enter_key (r ∷ rs))

parse_abort-Reads :
    (p : Picker) (fs : List Bytes) (r : Selection)
    → is_picker p ≡ true
    → parse_abort p fs ≡ ok r
    → Reads p fs (pos 130) r
unfolding parse_abort
parse_abort-Reads cd [] r h e = subst (Reads cd [] (pos 130)) (ok_eq e) cd_quit
parse_abort-Reads cd (q ∷ []) r h e = subst (Reads cd (q ∷ []) (pos 130)) (ok_eq e) cd_query
parse_abort-Reads cd (q ∷ q' ∷ fs) r h e = cc
parse_abort-Reads cp [] r h e = subst (Reads cp [] (pos 130)) (ok_eq e) cp_quit
parse_abort-Reads cp (f ∷ fs) r h e = cc
parse_abort-Reads other_picker fs r h e = cc

accept_frames-eq-ok :
    (code : ℤ) (q key : Bytes) (rs : List Bytes) (r : Selection)
    → accept_frames code q key rs ≡ ok r
    → (key ≡ enter_key) × (all is_frame rs ≡ true) × (accepted_selection code q enter_key rs ≡ r)
unfolding accept_frames
accept_frames-eq-ok code q key rs r h =
    let (e, h₁) =
      guard-eq-ok (bytes_eq key enter_key) unsupported_key
        (guard (all is_frame rs) empty_record >> ok (accepted_selection code q key rs)) h in
    let (full, h₂) =
      guard-eq-ok (all is_frame rs) empty_record (ok (accepted_selection code q key rs)) h₁ in
    let entered = eq_of_bytes_eq key enter_key e in
    (entered, full, ap (λ k. accepted_selection code q k rs) (sym entered) ∙ ok_eq h₂)

parse_acceptance-Reads :
    (p : Picker) (fs : List Bytes) (r : Selection)
    → is_picker p ≡ true
    → parse_acceptance p (pos 0) fs ≡ ok r
    → Reads p fs (pos 0) r
unfolding parse_acceptance
parse_acceptance-Reads cd [] r h e = cc
parse_acceptance-Reads cd (q ∷ []) r h e = cc
parse_acceptance-Reads cd (q ∷ k ∷ []) r h e = cc
parse_acceptance-Reads cd (q ∷ k ∷ t ∷ u ∷ fs) r h e = cc
parse_acceptance-Reads cd (q ∷ k ∷ t ∷ []) r h e =
    let (entered, full, same) = accept_frames-eq-ok (pos 0) q k (t ∷ []) r e in
    subst (λ k'. Reads cd (q ∷ k' ∷ t ∷ []) (pos 0) r) (sym entered)
      (subst (Reads cd (q ∷ enter_key ∷ t ∷ []) (pos 0)) same (cd_enter (ground arith)))
parse_acceptance-Reads cp [] r h e = cc
parse_acceptance-Reads cp (k ∷ []) r h e = cc
parse_acceptance-Reads cp (k ∷ t ∷ ts) r h e =
    let (entered, full, same) = accept_frames-eq-ok (pos 0) [] k (t ∷ ts) r e in
    subst (λ k'. Reads cp (k' ∷ t ∷ ts) (pos 0) r) (sym entered)
      (subst (Reads cp (enter_key ∷ t ∷ ts) (pos 0)) same (cp_enter full))
parse_acceptance-Reads other_picker fs r h e = cc

-- The exit codes that are read.
check_exit-eq-ok :
    (code : ℤ) (m : Result OutputError (List Bytes)) (fs : List Bytes)
    → check_exit code m ≡ ok fs
    → (m ≡ ok fs) × ((code ≡ pos 0) ⊎ (code ≡ pos 130))
check_exit-eq-ok (negsuc n) m fs h = cc
check_exit-eq-ok (pos n) m fs h = elim (Bool-cases (n == 0)) [
  | inl e ↦ (ground arith, inl (ap pos (ground arith)))
  | inr e ↦ elim (Bool-cases (n == 130)) [
    | inl e' ↦ (ground arith, inr (ap pos (ground arith)))
    | inr e' ↦ absurd (ground arith)
  ]
]

-- ParseOutput reads a selection from an output only when the output is the frames of that
-- selection, which contain no NUL.
pub parse_output_sound :
    (p : Picker) (output : Bytes) (code : ℤ) (r : Selection)
    → parse_output p output code ≡ ok r
    → (fs : List Bytes) × (frames fs ≡ output) × All NoNul fs × Reads p fs code r
unfolding parse_output
parse_output_sound p output code r h =
    let (picker, h₁) =
      guard-eq-ok (is_picker p) invalid_picker
        (check_exit code (nul_frames output) >>= λ fs. parse_frames p code fs) h in
    let (fs, h₂, h₃) =
      >>=-eq-ok (check_exit code (nul_frames output)) (λ fs. parse_frames p code fs) h₁ in
    let (framed, exit) = check_exit-eq-ok code (nul_frames output) fs h₂ in
    let (joined, plain) = nul_frames_sound output fs framed in
    (
      fs,
      joined,
      plain,
      elim exit [
        | inl e ↦
            subst (λ c. Reads p fs c r) (sym e)
              (parse_acceptance-Reads p fs r picker (ap (λ c. parse_frames p c fs) (sym e) ∙ h₃))
        | inr e ↦
            subst (λ c. Reads p fs c r) (sym e)
              (parse_abort-Reads p fs r picker (ap (λ c. parse_frames p c fs) (sym e) ∙ h₃))
      ],
    )

-- Conversely, the frames of a selection, when they contain no NUL, are read as that selection.
pub parse_output-frames :
    (p : Picker) (fs : List Bytes) (code : ℤ) (r : Selection)
    → All NoNul fs
    → Reads p fs code r
    → parse_output p (frames fs) code ≡ ok r
unfolding parse_output parse_abort parse_acceptance accept_frames bytes_eq
parse_output-frames p fs code r plain cd_quit = rw (nul_frames-frames fs plain)
parse_output-frames p fs code r plain cd_query = rw (nul_frames-frames fs plain)
parse_output-frames p fs code r plain cp_quit = rw (nul_frames-frames fs plain)
parse_output-frames p fs code r plain (cd_enter h) = rw (nul_frames-frames fs plain, h)
parse_output-frames p fs code r plain (cp_enter h) = rw (nul_frames-frames fs plain, h)
