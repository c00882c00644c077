-- ===== src/Session/Reduce/Sound.antt =====
-- What every proposal of Reduce keeps (internal/session/events.go), with its effect's text
-- (internal/fzf/action.go).
use shell_picker.Base.{
  ℕ, ◌≡◌, ◌≢◌, refl, sym, ap, Bool, true, false, not, ◌&&◌, ◌||◌, Option, none, some, Bytes,
  bytes_eq, codes, ok, arith,
}
use shell_picker.Protocol.Types.{
  Opcode, mode_insert, mode_add, escape, forward, parent, slash, home, enter, restore_view,
  other_opcode, Mode, no_mode, insert, normal, add, other_mode, Event, Effect, no_effect,
}
use shell_picker.Protocol.Display.Plain.{IsText}
use shell_picker.Pathutil.Filepath.{dot_dot}
use shell_picker.Pathutil.Location.Plain.{header_plain}
use shell_picker.Pathutil.Location.{Location, is_nil, validate_add_query}
use shell_picker.Fzf.Action.{has_control}
use shell_picker.Fzf.Render.Total.{renderable}
use shell_picker.Candidate.Entry.{Record}
use shell_picker.Session.State.{Snapshot, ProposedTransition, proposes}
use shell_picker.Session.Proposal.{
  is_add, is_insert, is_normal, mode_prompt, mode_effect, set_mode, with_effect, ignored, puts,
  escape_in, reduce_escape, add_error_proposal, set_navigation,
}
use shell_picker.Session.Resolve.{
  is_virtual, parsed, resolve_record, resolve_navigation_record, navigation_target,
}
use shell_picker.Session.Reduce.{
  start_proposal, navigate, to_child, accepts, reduce_forward, reduce_parent, reduce_slash,
  reduce_home, reduce_enter, reduce_opcode, reduce,
}
use shell_picker.Session.Reduce.Proposes.{
  IsConsistent, IsSound, Proposes, Proposes-ok, Proposes-adds, Proposes-err, Proposes->>=,
  Proposes-if, IsSound-if,
}

module _ (graphic : ℕ → Bool) (graphic_text : (c : ℕ) → graphic c ≡ true → IsText c) where
  set_mode-IsSound :
      (s : Snapshot) (m : Mode) (clear : Bool)
      → m ≢ no_mode
      → m ≢ other_mode
      → IsSound s (set_mode (start_proposal s) m clear)
  set_mode-IsSound s m clear a b =
      unfold set_mode in
      record {
        same_base = refl;
        same_picker = refl;
        same_home = refl;
        consistent = record { real_mode = (a, b); prompt_eq = refl; error_in_add = λ e. cc };
        builds = refl;
        renders = λ id. unfold renderable bytes_eq has_control in ground arith;
        creates_nothing = refl;
      }

  set_navigation-IsSound :
      (s : Snapshot) (l : Location)
      → IsConsistent s.state
      → is_add s.state.mode ≡ false
      → IsSound s (set_navigation graphic (start_proposal s) l)
  set_navigation-IsSound s l c a =
      unfold set_navigation in
      record {
        same_base = refl;
        same_picker = refl;
        same_home = refl;
        consistent = unfold mode_prompt in ground arith;
        builds = (refl, refl, a, ground arith, unfold mode_effect in refl);
        renders = λ id.
            unfold renderable mode_effect mode_prompt bytes_eq in
            ground (arith, header_plain graphic graphic_text l s.state.home);
        creates_nothing = refl;
      }

  effect-IsSound :
      (s : Snapshot) (e : Effect)
      → IsConsistent s.state
      → renderable e ≡ true
      → IsSound s (with_effect (start_proposal s) e)
  effect-IsSound s e c r = record {
    same_base = refl;
    same_picker = refl;
    same_home = refl;
    consistent = c;
    builds = refl;
    renders = λ id. r;
    creates_nothing = refl;
  }

  add_error_proposal-IsSound :
      (s : Snapshot) → s.state.mode ≡ add → IsSound s (add_error_proposal s)
  add_error_proposal-IsSound s e =
      unfold add_error_proposal in
      record {
        same_base = refl;
        same_picker = refl;
        same_home = refl;
        consistent = record {
          real_mode = (ground arith, ground arith);
          prompt_eq = ap (λ m. mode_prompt m true) (sym e);
          error_in_add = λ _. e;
        };
        builds = refl;
        renders = λ id. unfold renderable bytes_eq has_control mode_prompt in refl;
        creates_nothing = refl;
      }

  escape_in-IsSound :
      (s : Snapshot) (m : Mode) → IsConsistent s.state → IsSound s (escape_in m (start_proposal s))
  escape_in-IsSound s insert c = set_mode-IsSound s normal false (λ e. cc) (λ e. cc)
  escape_in-IsSound s add c = set_mode-IsSound s normal true (λ e. cc) (λ e. cc)
  escape_in-IsSound s normal c =
      effect-IsSound s _ c (unfold renderable bytes_eq has_control in refl)
  escape_in-IsSound s no_mode c = effect-IsSound s _ c (unfold renderable has_control in refl)
  escape_in-IsSound s other_mode c = effect-IsSound s _ c (unfold renderable has_control in refl)

  module _ (equal_fold : Bytes → Bytes → Bool) (s : Snapshot) (c : IsConsistent s.state) where
    navigate-IsSound :
        (r : Record)
        → is_add s.state.mode ≡ false
        → Proposes (IsSound s) (navigate graphic equal_fold (start_proposal s) r)
    navigate-IsSound r a =
        Proposes->>= (IsSound s) (navigation_target r) _
          (λ l. Proposes-ok (IsSound s) _ (set_navigation-IsSound s l c a))

    simple :
        (e : Effect)
        → renderable e ≡ true
        → Proposes (IsSound s) (ok (proposes (with_effect (start_proposal s) e)))
    simple e r = Proposes-ok (IsSound s) _ (effect-IsSound s e c r)

    ignored-renderable : renderable (ignored (start_proposal s)).effect ≡ true
    unfolding renderable has_control
    ignored-renderable = refl

    slash-renderable : renderable (puts (start_proposal s) (codes "/")).effect ≡ true
    unfolding renderable bytes_eq has_control
    slash-renderable = refl

    tilde-renderable : renderable (puts (start_proposal s) (codes "~")).effect ≡ true
    unfolding renderable bytes_eq has_control
    tilde-renderable = refl

    reduce_forward-IsSound :
        (event : Event) → Proposes (IsSound s) (reduce_forward graphic equal_fold s event)
    unfolding reduce_forward
    reduce_forward-IsSound event =
        Proposes-if (IsSound s) (is_add s.state.mode) _ _ (λ _. simple _ ignored-renderable)
          (λ a.
            Proposes->>= (IsSound s) (resolve_navigation_record s event.current_item) _
              (λ r. Proposes->>= (IsSound s) _ _ (λ _. navigate-IsSound r a)))

    reduce_parent-IsSound : Proposes (IsSound s) (reduce_parent graphic equal_fold s)
    unfolding reduce_parent
    reduce_parent-IsSound = Proposes-ok (IsSound s) _ (
        IsSound-if s (is_add s.state.mode) _ _ (λ _. effect-IsSound s _ c ignored-renderable)
          (λ a. set_navigation-IsSound s _ c a))

    invalid-renderable :
        renderable (record no_effect { put = codes "/"; invalid_path = true }) ≡ true
    unfolding renderable bytes_eq has_control
    invalid-renderable = refl

    to_child-IsSound :
        (r : Option Record)
        → is_add s.state.mode ≡ false
        → Proposes (IsSound s) (to_child graphic equal_fold r (start_proposal s))
    to_child-IsSound none a = simple _ invalid-renderable
    to_child-IsSound (some r) a = navigate-IsSound r a

    reduce_slash-IsSound :
        (event : Event) → Proposes (IsSound s) (reduce_slash graphic equal_fold s event)
    unfolding reduce_slash
    reduce_slash-IsSound event =
        Proposes-if (IsSound s) (is_add s.state.mode) _ _ (λ _. simple _ slash-renderable)
          (λ a.
            Proposes-if (IsSound s) (is_nil event.query) _ _
              (λ _. Proposes-ok (IsSound s) _ (set_navigation-IsSound s _ c a))
              (λ _.
                Proposes-if (IsSound s) (is_insert s.state.mode && bytes_eq event.query dot_dot) _ _
                  (λ _. Proposes-ok (IsSound s) _ (set_navigation-IsSound s _ c a))
                  (λ _.
                    Proposes-if (IsSound s) (is_insert s.state.mode) _ _ (λ _. to_child-IsSound _ a)
                      (λ _. simple _ ignored-renderable))))

    reduce_home-IsSound :
        (event : Event) → Proposes (IsSound s) (reduce_home graphic equal_fold s event)
    unfolding reduce_home
    reduce_home-IsSound event = Proposes-ok (IsSound s) _ (
        IsSound-if s (is_add s.state.mode || (is_insert s.state.mode && not (is_nil event.query))) _
          _ (λ _. effect-IsSound s _ c tilde-renderable)
          (λ a.
            IsSound-if s (is_normal s.state.mode && not (is_nil event.query)) _ _
              (λ _. effect-IsSound s _ c ignored-renderable)
              (λ _. set_navigation-IsSound s _ c (ground arith))))

    accept-renderable : renderable (record no_effect { accept = true }) ≡ true
    unfolding renderable has_control
    accept-renderable = refl

    restore-renderable : renderable (record no_effect { restore_generation = s.generation }) ≡ true
    unfolding renderable has_control
    restore-renderable = ground arith

    accepts-IsSound : Proposes (IsSound s) (accepts graphic equal_fold (start_proposal s))
    accepts-IsSound = simple _ accept-renderable

    reduce_enter-IsSound :
        (event : Event) → Proposes (IsSound s) (reduce_enter graphic equal_fold s event)
    unfolding reduce_enter
    reduce_enter-IsSound event =
        Proposes-if (IsSound s) (is_add s.state.mode) _ _
          (λ e.
            Proposes-if (IsSound s) (parsed (validate_add_query s.state.location event.query)) _ _
              (λ _. Proposes-adds (IsSound s) _)
              (λ _. Proposes-ok (IsSound s) _ (add_error_proposal-IsSound s (ground arith))))
          (λ a.
            Proposes-if (IsSound s) (is_nil event.current_item) _ _ (λ _. accepts-IsSound)
              (λ _. Proposes->>= (IsSound s) (resolve_record s event.current_item) _ (λ r.
                Proposes-if (IsSound s) (is_virtual r.kind) _ _ (λ _. navigate-IsSound r a)
                  (λ _. accepts-IsSound))))

    reduce_opcode-IsSound :
        (o : Opcode) (event : Event)
        → Proposes (IsSound s) (reduce_opcode graphic equal_fold o s event)
    unfolding reduce_opcode
    reduce_opcode-IsSound mode_insert event =
        Proposes->>= (IsSound s) _ _
          (λ _. Proposes-ok (IsSound s) _ (set_mode-IsSound s insert false (λ e. cc) (λ e. cc)))
    reduce_opcode-IsSound mode_add event =
        Proposes->>= (IsSound s) _ _
          (λ _. Proposes-ok (IsSound s) _ (set_mode-IsSound s add true (λ e. cc) (λ e. cc)))
    reduce_opcode-IsSound escape event =
        Proposes-ok (IsSound s) _ (unfold reduce_escape in escape_in-IsSound s s.state.mode c)
    reduce_opcode-IsSound forward event = reduce_forward-IsSound event
    reduce_opcode-IsSound parent event = reduce_parent-IsSound
    reduce_opcode-IsSound slash event = reduce_slash-IsSound event
    reduce_opcode-IsSound home event = reduce_home-IsSound event
    reduce_opcode-IsSound enter event = reduce_enter-IsSound event
    reduce_opcode-IsSound restore_view event = simple _ restore-renderable
    reduce_opcode-IsSound other_opcode event = Proposes-err (IsSound s) _

  -- When no control character is graphic, every proposal of Reduce on a consistent state is sound: it
  -- stands on the snapshot's generation, keeps picker and home, leaves a consistent state, changes the
  -- location only with a build of it, and neither in Add mode nor into it, its effect can be told to fzf whatever
  -- generation the build gets, and it has created nothing.
  pub reduce-IsSound :
      (equal_fold : Bytes → Bytes → Bool) (s : Snapshot) (event : Event) {p : ProposedTransition}
      → IsConsistent s.state
      → reduce graphic equal_fold s event ≡ ok (proposes p)
      → IsSound s p
  unfolding reduce Proposes
  reduce-IsSound equal_fold s event c h =
      rw h at (reduce_opcode-IsSound equal_fold s c event.opcode event)
