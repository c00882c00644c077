-- ===== src/Callback/Dispatch.antt =====
-- internal/callback/dispatch.go: the callbacks of events, loads and the display. The session's
-- answers are a record of functions, and every call to the session is an output. A writer has a
-- state `W`; `visible_header` is visibleHeader of display.go with its environment.
pub mod Complete
pub mod Settled
use shell_picker.Base.{
  ℕ, zero, suc, Bool, true, false, ◌==◌, ltb, if◌then◌else◌, Option, none, some, List, [], ◌∷◌,
  ◌++◌, Bytes, codes, drop, length, Result, ok, err,
}
use shell_picker.Protocol.Types.{Effect, CursorShape, no_cursor, line, block, no_effect}
use shell_picker.Protocol.Base64.{encode_path}
use shell_picker.Fzf.Action.{ActionError}
use shell_picker.Fzf.Render.{render_effect}
use shell_picker.Sessionipc.Dto.{
  EventRequest, EventResponse, EventFinalizeRequest, LoadFinalizeRequest, LoadRequest,
}
use shell_picker.Callback.Grammar.{Command}

-- `out_of_rounds` is the end of the fuel of `write_rounds`.
pub data DispatchError (E : Type 0) : Type 0 where
  short_write out_of_rounds : DispatchError E
  failed : E → DispatchError E
  bad_action : ActionError → DispatchError E

-- What `Write` returns; a negative count is `none`.
pub record Written (E : Type 0) : Type 0 where
  pub count : Option ℕ
  pub failure : Option E

-- The calls of `IPCClient`, and the cursor's change.
pub data Call : Type 0 where
  called_event : EventRequest → Call
  called_finalize_event : EventFinalizeRequest → Call
  called_load : LoadRequest → Call
  called_finalize_load : LoadFinalizeRequest → Call
  called_display : Call
  set_cursor : CursorShape → Call

-- The answers of `IPCClient`.
pub record Client (E : Type 0) : Type 0 where
  pub event : EventRequest → Result E EventResponse
  pub finalize_event : EventFinalizeRequest → Option E
  pub load : LoadRequest → Result E Bytes
  pub finalize_load : LoadFinalizeRequest → Option E
  pub display : Result E Bytes

abbrev pub is_none {ℓ} : {A : Type ℓ} → Option A → Bool
is_none none = true
is_none (some a) = false

-- The deferred `if err == nil && finalizeErr != nil`.
abbrev pub settle : {E : Type 0} → Option (DispatchError E) → Option E → Option (DispatchError E)
settle (some e) late = some e
settle none none = none
settle none (some e) = some (failed e)

-- `SetCursor` writes nothing for the empty shape.
abbrev pub cursor_calls : CursorShape → List Call
cursor_calls no_cursor = []
cursor_calls line = set_cursor line ∷ []
cursor_calls block = set_cursor block ∷ []

module _ {W E : Type 0} (write : W → Bytes → W × Written E) where
  abbrev pub Outcome : Type 0
  Outcome = W × Option (DispatchError E)

  abbrev pub advance : Option ℕ → Bytes → Bytes
  advance none s = s
  advance (some n) s = drop n s

  abbrev pub after_count : W → ℕ → Option E → Outcome → Outcome
  after_count w n (some e) rest = (w, some (failed e))
  after_count w zero none rest = (w, some short_write)
  after_count w (suc n) none rest = rest

  abbrev pub after_write : W → ℕ → Option ℕ → Option E → Outcome → Outcome
  after_write w size none failure rest = (w, some short_write)
  after_write w size (some n) failure rest =
      if ltb size n then (w, some short_write) else after_count w n failure rest

  -- The rounds of `writeAll`.
  unfoldable pub write_rounds : ℕ → W → Bytes → Outcome
  write_rounds fuel w [] = (w, none)
  write_rounds zero w (c ∷ s) = (w, some out_of_rounds)
  write_rounds (suc fuel) w (c ∷ s) =
      let (after, written) = write w (c ∷ s) in
      let rest = write_rounds fuel after (advance written.count (c ∷ s)) in
      after_write after (length (c ∷ s)) written.count written.failure rest

  -- `writeAll`: a round that goes on has written a byte at least.
  unfoldable pub write_all : W → Bytes → Outcome
  unfolding write_rounds
  write_all w s = write_rounds (length s) w s

  abbrev pub send_action : W → Result ActionError Bytes → Outcome
  send_action w (err e) = (w, some (bad_action e))
  send_action w (ok action) = write_all w action

  module _ (visible_header : Bytes → Option Bytes) (client : Client E) where
    abbrev pub or_empty : Option Bytes → Bytes
    or_empty none = []
    or_empty (some s) = s

    abbrev pub shown_header : Bytes → Bytes
    shown_header [] = []
    shown_header (c ∷ s) = or_empty (visible_header (c ∷ s))

    abbrev pub event_action : EventResponse → Result ActionError Bytes
    event_action response =
        render_effect (record (response.effect) { header = shown_header (response.effect).header })
          response.event_id

    -- `dispatchEventAction`; the cursor is set first.
    abbrev pub dispatch_event_action : W → EventResponse → Outcome
    dispatch_event_action w response = send_action w (event_action response)

    -- The deferred finalization, which an event without a number does not have.
    abbrev pub finalized_event : Bool → EventResponse → List Call → Outcome → Outcome × List Call
    finalized_event true response calls outcome = (outcome, calls)
    finalized_event false response calls (w, failure) =
        let request : EventFinalizeRequest = record {
          event_id = response.event_id;
          applied = is_none failure;
        } in
        (
          (w, settle failure (client.finalize_event request)),
          calls ++ called_finalize_event request ∷ [],
        )

    abbrev pub after_event : W → EventRequest → Result E EventResponse → Outcome × List Call
    after_event w request (err e) = ((w, some (failed e)), called_event request ∷ [])
    after_event w request (ok response) =
        finalized_event (response.event_id == 0) response
          (called_event request ∷ cursor_calls (response.effect).cursor)
          (dispatch_event_action w response)

    abbrev pub event_request : (Bytes → Bytes) → Command → EventRequest
    event_request lookup_env command = record {
      opcode = command.opcode;
      key = lookup_env (codes "FZF_KEY");
      query_base64 = encode_path (lookup_env (codes "FZF_QUERY"));
      current_item_base64 = encode_path (lookup_env (codes "FZF_CURRENT_ITEM"));
    }

    -- `dispatchEvent`.
    unfoldable pub dispatch_event : W → (Bytes → Bytes) → Command → Outcome × List Call
    dispatch_event w lookup_env command =
        let request = event_request lookup_env command in
        after_event w request (client.event request)

    abbrev pub after_load : W → Result E Bytes → Outcome
    after_load w (err e) = (w, some (failed e))
    after_load w (ok s) = write_all w s

    abbrev pub finalized_load : Bool → LoadRequest → Outcome → Outcome × List Call
    finalized_load true request outcome = (outcome, called_load request ∷ [])
    finalized_load false request (w, failure) =
        let final : LoadFinalizeRequest = record {
          event_id = request.event_id;
          applied = is_none failure;
        } in
        (
          (w, settle failure (client.finalize_load final)),
          called_load request ∷ called_finalize_load final ∷ [],
        )

    -- `dispatchLoad`.
    unfoldable pub dispatch_load : W → Command → Outcome × List Call
    dispatch_load w command =
        let request : LoadRequest = record {
          generation = command.generation;
          event_id = command.event_id;
        } in
        finalized_load (command.event_id == 0) request (after_load w (client.load request))

    abbrev pub show_header : W → Option Bytes → Outcome
    show_header w none = (w, none)
    show_header w (some header) =
        send_action w (render_effect (record no_effect { header = header }) 0)

    abbrev pub after_display : W → Result E Bytes → Outcome
    after_display w (err e) = (w, some (failed e))
    after_display w (ok []) = (w, none)
    after_display w (ok (c ∷ s)) = show_header w (visible_header (c ∷ s))

    -- `dispatchDisplay`; no header is visible when it is empty.
    unfoldable pub dispatch_display : W → Outcome × List Call
    dispatch_display w = (after_display w client.display, called_display ∷ [])
