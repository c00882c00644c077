-- ===== src/Fzf/Render/Total.antt =====
-- When an effect has a text (internal/fzf/action.go, RenderEffect).
use shell_picker.Base.{
  ℕ, ◌≡◌, refl, Bool, true, false, not, ◌&&◌, ◌||◌, ◌==◌, [], ◌∷◌, Bytes, bytes_eq, codes, is_ok,
  arith, guard,
}
use shell_picker.Protocol.Types.{Mode, other_mode, Search, other_search, Effect}
use shell_picker.Fzf.Action.{
  ActionError, change_mode_prompt, change_header, put_action, has_control,
}
use shell_picker.Fzf.Render.{search_actions, rebind_actions, text_actions, render_effect}

abbrev pub known_search : Search → Bool
known_search other_search = false
known_search _ = true

abbrev pub known_rebind : Mode → Bool
known_rebind other_mode = false
known_rebind _ = true

abbrev pub known_put : Bytes → Bool
known_put [] = true
known_put (c ∷ s) = bytes_eq (c ∷ s) (codes "/") || bytes_eq (c ∷ s) (codes "~")

abbrev pub known_prompt : Bytes → Bool
known_prompt [] = true
known_prompt (c ∷ s) =
    bytes_eq (c ∷ s) (codes "[I] ")
    || bytes_eq (c ∷ s) (codes "[N] ")
    || bytes_eq (c ∷ s) (codes "[A] ")
    || bytes_eq (c ∷ s) (codes "[A!] ")

-- The effects that fzf can be told.
unfoldable pub renderable : Effect → Bool
renderable e =
    not (e.invalid_path && not (bytes_eq e.put (codes "/")))
    && (not (not (e.reload_generation == 0) && not (e.restore_generation == 0))
        && (known_search e.search
            && (known_rebind e.rebind
                && (known_put e.put && (known_prompt e.prompt && not (has_control e.header))))))

is_ok-guard : (b : Bool) (e : ActionError) → is_ok (guard b e) ≡ b
is_ok-guard true e = refl
is_ok-guard false e = refl

is_ok-search_actions : (s : Search) → is_ok (search_actions s) ≡ known_search s
unfolding search_actions
is_ok-search_actions other_search = refl
is_ok-search_actions _ = refl

is_ok-rebind_actions : (m : Mode) → is_ok (rebind_actions m) ≡ known_rebind m
unfolding rebind_actions
is_ok-rebind_actions other_mode = refl
is_ok-rebind_actions _ = refl

is_ok-put : (p : Bytes) → is_ok (text_actions put_action p) ≡ known_put p
unfolding text_actions put_action
is_ok-put [] = refl
is_ok-put (c ∷ s) = ground arith

is_ok-prompt : (p : Bytes) → is_ok (text_actions change_mode_prompt p) ≡ known_prompt p
unfolding text_actions change_mode_prompt
is_ok-prompt [] = refl
is_ok-prompt (c ∷ s) = ground arith

is_ok-header : (p : Bytes) → is_ok (text_actions change_header p) ≡ not (has_control p)
unfolding text_actions change_header
is_ok-header [] = refl
is_ok-header (c ∷ s) = ground arith

-- An effect has a text exactly when it is one that fzf can be told: an invalid path puts a slash,
-- no two generations are loaded, every word is one of the known ones, and the header has no control
-- character.
pub is_ok-render_effect :
    (e : Effect) (event_id : ℕ) → is_ok (render_effect e event_id) ≡ renderable e
unfolding render_effect renderable
is_ok-render_effect e event_id = ground (
  arith,
  is_ok-search_actions e.search,
  is_ok-rebind_actions e.rebind,
  is_ok-put e.put,
  is_ok-prompt e.prompt,
  is_ok-header e.header,
)
