-- ===== src/Session/Reduce.antt =====
-- internal/session/events.go: the reduction of a key event to a proposed transition. `graphic` and
-- `equal_fold` are unicode.IsGraphic and bytes.EqualFold.
pub mod Proposes
pub mod Sound
use shell_picker.Base.{
  ℕ, Bool, true, false, not, ◌&&◌, ◌||◌, if◌then◌else◌, Option, none, some, Bytes, bytes_eq, codes,
  Result, ok, err, ◌>>=◌, ◌>>◌, guard,
}
use shell_picker.Protocol.Types.{
  Mode, insert, normal, add, Opcode, mode_insert, mode_add, escape, forward, parent, slash, home,
  enter, restore_view, other_opcode, Event, no_effect,
}
use shell_picker.Pathutil.Filepath.{dot_dot}
use shell_picker.Pathutil.Location.{root, parent as parent_location, validate_add_query, is_nil}
use shell_picker.Candidate.Entry.{Record}
use shell_picker.Session.State.{
  Snapshot, ProposedTransition, Reduction, proposes, adds, Error, invalid_event, invalid_navigation,
}
use shell_picker.Session.Proposal.{
  is_add, is_insert, is_normal, set_mode, with_effect, ignored, puts, reduce_escape,
  add_error_proposal, set_navigation,
}
use shell_picker.Session.Resolve.{
  is_virtual, parsed, resolve_record, resolve_navigation_record, navigation_target, can_navigate,
  exact_immediate_child,
}

-- The proposal that Reduce starts from.
abbrev pub start_proposal : Snapshot → ProposedTransition
start_proposal snapshot = record {
  base_generation = snapshot.generation;
  state = snapshot.state;
  build = none;
  effect = no_effect;
  created = none;
}

module _ (graphic : ℕ → Bool) (equal_fold : Bytes → Bytes → Bool) where
  abbrev pub navigate : ProposedTransition → Record → Result Error Reduction
  navigate proposal r = do
    target ← navigation_target r
    ok (proposes (set_navigation graphic proposal target))

  unfoldable pub reduce_forward : Snapshot → Event → Result Error Reduction
  reduce_forward snapshot event =
      let proposal = start_proposal snapshot in
      if is_add snapshot.state.mode
      then ok (proposes (ignored proposal))
      else resolve_navigation_record snapshot event.current_item >>= λ r.
          guard (can_navigate snapshot.state.picker r.kind) invalid_navigation >>= λ _.
          navigate proposal r

  unfoldable pub reduce_parent : Snapshot → Result Error Reduction
  reduce_parent snapshot =
      let proposal = start_proposal snapshot in
      ok (
        proposes (
          if is_add snapshot.state.mode
          then ignored proposal
          else set_navigation graphic proposal (parent_location snapshot.state.location)))

  abbrev pub to_child : Option Record → ProposedTransition → Result Error Reduction
  to_child none proposal =
      ok (
        proposes (with_effect proposal (record no_effect { put = codes "/"; invalid_path = true })))
  to_child (some r) proposal = navigate proposal r

  unfoldable pub reduce_slash : Snapshot → Event → Result Error Reduction
  unfolding bytes_eq
  reduce_slash snapshot event =
      let proposal = start_proposal snapshot in
      let mode = snapshot.state.mode in
      if is_add mode
      then ok (proposes (puts proposal (codes "/")))
      else if is_nil event.query
      then ok (proposes (set_navigation graphic proposal root))
      else if is_insert mode && bytes_eq event.query dot_dot
      then ok (proposes (set_navigation graphic proposal (parent_location snapshot.state.location)))
      else if is_insert mode
      then to_child (exact_immediate_child equal_fold snapshot event.query) proposal
      else ok (proposes (ignored proposal))

  unfoldable pub reduce_home : Snapshot → Event → Result Error Reduction
  reduce_home snapshot event =
      let proposal = start_proposal snapshot in
      let mode = snapshot.state.mode in
      ok (
        proposes (
          if is_add mode || (is_insert mode && not (is_nil event.query))
          then puts proposal (codes "~")
          else if is_normal mode && not (is_nil event.query)
          then ignored proposal
          else set_navigation graphic proposal snapshot.state.home))

  abbrev pub accepts : ProposedTransition → Result Error Reduction
  accepts proposal = ok (proposes (with_effect proposal (record proposal.effect { accept = true })))

  unfoldable pub reduce_enter : Snapshot → Event → Result Error Reduction
  reduce_enter snapshot event =
      let proposal = start_proposal snapshot in
      let state = snapshot.state in
      if is_add state.mode
      then (if parsed (validate_add_query state.location event.query)
          then ok (
              adds (record {
                base_generation = snapshot.generation;
                base = state.location;
                query = event.query;
              }))
          else ok (proposes (add_error_proposal snapshot)))
      else if is_nil event.current_item
      then accepts proposal
      else resolve_record snapshot event.current_item >>= λ r.
          if is_virtual r.kind then navigate proposal r else accepts proposal

  -- `Reduce`, by the opcode.
  unfoldable pub reduce_opcode : Opcode → Snapshot → Event → Result Error Reduction
  reduce_opcode mode_insert snapshot event = do
    guard (is_normal snapshot.state.mode) invalid_event
    ok (proposes (set_mode (start_proposal snapshot) insert false))
  reduce_opcode mode_add snapshot event = do
    guard (is_normal snapshot.state.mode) invalid_event
    ok (proposes (set_mode (start_proposal snapshot) add true))
  reduce_opcode escape snapshot event = ok (proposes (reduce_escape (start_proposal snapshot)))
  reduce_opcode forward snapshot event = reduce_forward snapshot event
  reduce_opcode parent snapshot event = reduce_parent snapshot
  reduce_opcode slash snapshot event = reduce_slash snapshot event
  reduce_opcode home snapshot event = reduce_home snapshot event
  reduce_opcode enter snapshot event = reduce_enter snapshot event
  reduce_opcode restore_view snapshot event = ok (
      proposes (
        with_effect (start_proposal snapshot)
          (record no_effect { restore_generation = snapshot.generation })))
  reduce_opcode other_opcode snapshot event = err invalid_event

  unfoldable pub reduce : Snapshot → Event → Result Error Reduction
  unfolding reduce_opcode
  reduce snapshot event = reduce_opcode event.opcode snapshot event
