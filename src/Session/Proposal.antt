-- ===== src/Session/Proposal.antt =====
-- internal/session/events.go: the helpers that build a proposed transition. `graphic` is
-- unicode.IsGraphic.
use shell_picker.Base.{ℕ, Bool, true, false, if◌then◌else◌, none, some, Bytes, codes}
use shell_picker.Protocol.Types.{Mode, insert, normal, add, line, block, on, off, Effect, no_effect}
use shell_picker.Pathutil.Location.{Location, prompt_display_home}
use shell_picker.Session.State.{State, Snapshot, ProposedTransition}

abbrev pub is_add : Mode → Bool
is_add add = true
is_add _ = false

abbrev pub is_insert : Mode → Bool
is_insert insert = true
is_insert _ = false

abbrev pub is_normal : Mode → Bool
is_normal normal = true
is_normal _ = false

unfoldable pub mode_prompt : Mode → Bool → Bytes
mode_prompt normal add_error = codes "[N] "
mode_prompt add add_error = if add_error then codes "[A!] " else codes "[A] "
mode_prompt _ add_error = codes "[I] "

unfoldable pub mode_effect : State → Bool → ℕ → Effect
mode_effect state clear_query restore_generation = record no_effect {
  mode = state.mode;
  prompt = state.prompt;
  search = if is_normal state.mode then off else on;
  rebind = state.mode;
  clear_query = clear_query;
  cursor = if is_normal state.mode then block else line;
  restore_generation = restore_generation;
}

unfoldable pub set_mode : ProposedTransition → Mode → Bool → ProposedTransition
unfolding mode_prompt mode_effect
set_mode proposal mode clear_query =
    let state = record proposal.state {
      mode = mode;
      add_error = false;
      prompt = mode_prompt mode false;
    } in
    record proposal {
      state = state;
      effect = mode_effect state clear_query proposal.base_generation;
    }

abbrev pub with_effect : ProposedTransition → Effect → ProposedTransition
with_effect proposal effect = record proposal { effect = effect }

abbrev pub ignored : ProposedTransition → ProposedTransition
ignored proposal = with_effect proposal (record proposal.effect { ignore = true })

abbrev pub puts : ProposedTransition → Bytes → ProposedTransition
puts proposal text = with_effect proposal (record proposal.effect { put = text })

abbrev pub escape_in : Mode → ProposedTransition → ProposedTransition
escape_in insert proposal = set_mode proposal normal false
escape_in normal proposal = with_effect proposal (record no_effect { abort = true })
escape_in add proposal = set_mode proposal normal true
escape_in _ proposal = proposal

unfoldable pub reduce_escape : ProposedTransition → ProposedTransition
unfolding set_mode
reduce_escape proposal = escape_in proposal.state.mode proposal

-- The header of events_header_unix.go is empty.
unfoldable pub add_error_proposal : Snapshot → ProposedTransition
unfolding mode_prompt
add_error_proposal snapshot =
    let state = record snapshot.state { add_error = true; prompt = mode_prompt add true } in
    record {
      base_generation = snapshot.generation;
      state = state;
      build = none;
      effect = record no_effect { prompt = state.prompt; error_prompt = true };
      created = none;
    }

-- `setNavigationUnchecked`.
unfoldable pub set_navigation : (ℕ → Bool) → ProposedTransition → Location → ProposedTransition
unfolding mode_prompt mode_effect
set_navigation graphic proposal target =
    let mode = if is_add proposal.state.mode then normal else proposal.state.mode in
    let state = record proposal.state {
      location = target;
      mode = mode;
      add_error = false;
      prompt = mode_prompt mode false;
    } in
    record proposal {
      state = state;
      build = some (record {
        generation = 0;
        picker = state.picker;
        location = target;
        stat_workers = 0;
        initial = false;
      });
      effect = record (mode_effect state true 0) {
        header = prompt_display_home graphic target state.home;
        clear_multi = true;
      };
    }
