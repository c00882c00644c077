-- ===== src/Pathutil/Location/Plain.antt =====
-- A displayed location holds no control character (internal/pathutil, PromptDisplayHome).
use shell_picker.Base.{ℕ, ◌≡◌, refl, Bool, true, false, [], ◌∷◌, Bytes, arith, All, All-append}
use shell_picker.Protocol.Display.{escape_display}
use shell_picker.Protocol.Display.Plain.{IsText, escape_display-IsText}
use shell_picker.Pathutil.Filepath.{trim_right}
use shell_picker.Pathutil.Location.{
  LocationKind, filesystem, drives, no_location, Location, prompt_display, prompt_display_home,
  display_of, path_display, display_home,
}
use shell_picker.Fzf.Action.{has_control}

no_control : (s : Bytes) → All IsText s → has_control s ≡ false
unfolding has_control
no_control [] h = refl
no_control (c ∷ s) h = ground (arith, no_control s h.1)

module _ (graphic : ℕ → Bool) (graphic_text : (c : ℕ) → graphic c ≡ true → IsText c) where
  path_display-IsText : (p : Bytes) → All IsText (path_display graphic p)
  path_display-IsText [] = omega arith
  path_display-IsText (c ∷ s) =
      All-append IsText (escape_display graphic (c ∷ s)) (b'/' ∷ [])
        (escape_display-IsText graphic graphic_text (c ∷ s)) (omega arith)

  display_of-IsText : (k : LocationKind) (p : Bytes) → All IsText (display_of graphic k p)
  display_of-IsText filesystem p = path_display-IsText (trim_right p)
  display_of-IsText drives p = omega arith
  display_of-IsText no_location p = omega arith

  prompt_display-IsText : (l : Location) → All IsText (prompt_display graphic l)
  unfolding prompt_display
  prompt_display-IsText l = display_of-IsText l.kind l.path

  display_home-IsText :
      (k j : LocationKind) (l h : Location) → All IsText (display_home graphic k j l h)
  display_home-IsText filesystem filesystem l h = prompt_display-IsText _
  display_home-IsText _ _ l h = prompt_display-IsText l

  -- When no control character is graphic, a displayed location holds none that an action of fzf
  -- refuses, whatever the location and the home are.
  pub header_plain : (l h : Location) → has_control (prompt_display_home graphic l h) ≡ false
  unfolding prompt_display_home
  header_plain l h = no_control _ (display_home-IsText l.kind h.kind l h)
