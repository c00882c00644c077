-- ===== src/Fzf/Render.antt =====
-- internal/fzf/action.go, RenderEffect: the text of an effect.
pub mod Total
use shell_picker.Base.{
  ℕ, ◌+◌, Bool, true, false, not, ◌&&◌, ◌||◌, ◌==◌, if◌then◌else◌, List, [], ◌∷◌, ◌++◌, Bytes,
  bytes_eq, codes, Result, ok, err, ◌>>=◌, ◌>>◌, guard,
}
use shell_picker.Base.Decimal.{decimal}
use shell_picker.Protocol.Types.{
  Mode, no_mode, insert, normal, add, other_mode, Search, no_search, on, off, other_search, Effect,
}
use shell_picker.Fzf.Action.{
  sequence, key_action, rebind, unbind, abort_action, ActionError, change_mode_prompt,
  change_header, put_action, invalid_path_without_slash, reload_and_restore, invalid_search,
  invalid_rebind,
}

-- The callback command that fzf runs to load a generation, for an event where it is not 0.
unfoldable pub load_command : ℕ → ℕ → Bytes
unfolding decimal
load_command generation event_id =
    if event_id == 0
    then codes "l:" ++ decimal generation
    else codes "l:" ++ (decimal generation ++ (codes ":" ++ decimal event_id))

-- `reload` and `reloadForEvent`.
unfoldable pub reload_for_event : ℕ → ℕ → Bytes
unfolding load_command
reload_for_event generation event_id =
    codes "reload-sync(" ++ (load_command generation event_id ++ codes ")")

unfoldable pub search_actions : Search → Result ActionError (List Bytes)
search_actions no_search = ok []
search_actions on = ok (codes "enable-search" ∷ [])
search_actions off = ok (codes "disable-search" ∷ [])
search_actions other_search = err invalid_search

unfoldable pub rebind_actions : Mode → Result ActionError (List Bytes)
rebind_actions no_mode = ok []
rebind_actions other_mode = err invalid_rebind
rebind_actions insert = ok (rebind insert ∷ unbind insert ∷ [])
rebind_actions normal = ok (rebind normal ∷ unbind normal ∷ [])
rebind_actions add = ok (rebind add ∷ unbind add ∷ [])

-- No action for an empty text, else the action that `f` builds of it.
unfoldable pub text_actions :
    (Bytes → Result ActionError Bytes) → Bytes → Result ActionError (List Bytes)
text_actions f [] = ok []
text_actions f (c ∷ s) = do action ← f (c ∷ s); ok (action ∷ [])

abbrev only_if : Bool → List Bytes → List Bytes
only_if true actions = actions
only_if false actions = []

unfoldable pub change_keys : List Bytes
change_keys = codes "change" ∷ []

-- The actions that stand in front of the text put into the query.
unfoldable pub reload_actions : Effect → ℕ → List Bytes
reload_actions effect event_id =
    only_if effect.clear_multi (codes "clear-multi" ∷ [])
    ++ (only_if (not (effect.reload_generation == 0))
          (reload_for_event effect.reload_generation event_id ∷ [])
        ++ (only_if (not (effect.restore_generation == 0))
              (reload_for_event effect.restore_generation event_id ∷ [])
            ++ only_if effect.clear_query (codes "clear-query" ∷ [])))

abbrev reloads : Effect → Bool
reloads effect = not (effect.reload_generation == 0) || not (effect.restore_generation == 0)

-- The actions behind it, up to the prompt.
unfoldable pub final_actions : Effect → List Bytes
unfolding key_action change_keys abort_action
final_actions effect =
    only_if effect.invalid_path (
      codes "reload-sync(l:empty)"
      ∷ codes "wait"
      ∷ codes "change-preview(p:invalid)"
      ∷ key_action (codes "rebind") change_keys
      ∷ [])
    ++ (only_if effect.abort (abort_action ∷ [])
        ++ (only_if effect.accept (codes "print(enter)+accept" ∷ [])
            ++ (only_if effect.ignore (codes "ignore" ∷ [])
                ++ (only_if (reloads effect) (codes "wait" ∷ [])
                    ++ (only_if (not (effect.reload_generation == 0)) (codes "first" ∷ [])
                        ++ only_if (reloads effect) (
                            codes "change-preview(p)"
                            ∷ key_action (codes "unbind") change_keys
                            ∷ []))))))

-- `renderEffect`; RenderEffect is its case of the event 0.
unfoldable pub render_effect : Effect → ℕ → Result ActionError Bytes
render_effect effect event_id = do
  guard (not (effect.invalid_path && not (bytes_eq effect.put (codes "/"))))
      invalid_path_without_slash
  guard (not (not (effect.reload_generation == 0) && not (effect.restore_generation == 0)))
      reload_and_restore
  search ← search_actions effect.search
  bound ← rebind_actions effect.rebind
  texts ← text_actions put_action effect.put
  prompt ← text_actions change_mode_prompt effect.prompt
  header ← text_actions change_header effect.header
  ok (
      sequence (
        search
        ++ (bound
            ++ (reload_actions effect event_id
                ++ (texts ++ (final_actions effect ++ (prompt ++ header)))))))
