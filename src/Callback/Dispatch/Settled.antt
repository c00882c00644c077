-- ===== src/Callback/Dispatch/Settled.antt =====
-- internal/callback/dispatch.go: an event and a load are finalized once, as applied only when
-- all of their text was written, and always when no error is returned.
use shell_picker.Base.{
  ℕ, Bool, true, false, ◌==◌, Option, none, some, List, [], ◌∷◌, ◌++◌, Bytes, ◌≡◌, refl, ap, Result,
  ok, err,
}
use shell_picker.Protocol.Types.{CursorShape, no_cursor, line, block}
use shell_picker.Sessionipc.Dto.{
  EventRequest, EventResponse, EventFinalizeRequest, LoadFinalizeRequest, LoadRequest,
}
use shell_picker.Fzf.Action.{ActionError}
use shell_picker.Callback.Grammar.{Command}
use shell_picker.Callback.Dispatch.{
  Written, DispatchError, Call, called_event, called_finalize_event, called_load,
  called_finalize_load, called_display, set_cursor, Client, Outcome, dispatch_event, dispatch_load,
  event_action, event_request, after_load, finalized_event, finalized_load, send_action, settle,
  is_none, cursor_calls,
}
use shell_picker.Callback.Dispatch.Complete.{Appends, write_all-Complete}

-- The finalizations of events among the calls.
abbrev pub event_finals : List Call → List EventFinalizeRequest
event_finals [] = []
event_finals (called_finalize_event request ∷ calls) = request ∷ event_finals calls
event_finals (called_event request ∷ calls) = event_finals calls
event_finals (called_load request ∷ calls) = event_finals calls
event_finals (called_finalize_load request ∷ calls) = event_finals calls
event_finals (called_display ∷ calls) = event_finals calls
event_finals (set_cursor shape ∷ calls) = event_finals calls

abbrev pub load_finals : List Call → List LoadFinalizeRequest
load_finals [] = []
load_finals (called_finalize_load request ∷ calls) = request ∷ load_finals calls
load_finals (called_event request ∷ calls) = load_finals calls
load_finals (called_finalize_event request ∷ calls) = load_finals calls
load_finals (called_load request ∷ calls) = load_finals calls
load_finals (called_display ∷ calls) = load_finals calls
load_finals (set_cursor shape ∷ calls) = load_finals calls

event_finals-cursor :
    (shape : CursorShape) (request : EventFinalizeRequest)
    → event_finals (cursor_calls shape ++ called_finalize_event request ∷ []) ≡ request ∷ []
event_finals-cursor no_cursor request = refl
event_finals-cursor line request = refl
event_finals-cursor block request = refl

event_finals-cursors :
    (shape : CursorShape) → Path (List EventFinalizeRequest) (event_finals (cursor_calls shape)) []
event_finals-cursors no_cursor = refl
event_finals-cursors line = refl
event_finals-cursors block = refl

abbrev pub load_final : Bool → ℕ → Bool → List LoadFinalizeRequest
load_final true event_id applied = []
load_final false event_id applied = record { event_id = event_id; applied = applied } ∷ []

abbrev pub event_final : Bool → ℕ → Bool → List EventFinalizeRequest
event_final true event_id applied = []
event_final false event_id applied = record { event_id = event_id; applied = applied } ∷ []

module _ {W E : Type 0} (write : W → Bytes → W × Written E) (content : W → Bytes) where
  -- `applied` holds only when the text that should be written was, and holds when no error is
  -- returned.
  abbrev pub Honest : {F : Type 0} → Bool → W → Result F Bytes → Outcome write → Type 0
  Honest applied w text r =
      (applied ≡ true → (s : Bytes) × (text ≡ ok s) × (content (r.0) ≡ content w ++ s))
      × (r.1 ≡ none → applied ≡ true)

  -- The finalizations are these, for an `applied` that is honest.
  abbrev pub Settled :
      {F R : Type 0} → List R → (Bool → List R) → W → Result F Bytes → Outcome write → Type 0
  Settled finals expected w text r =
      (applied : Bool) × (finals ≡ expected applied) × Honest applied w text r

module _ {W E : Type 0} (write : W → Bytes → W × Written E) (content : W → Bytes)
    (appends : Appends write content) (visible_header : Bytes → Option Bytes)
    (client : Client E) where
  settle-none :
      (failure : Option (DispatchError E)) (late : Option E)
      → settle failure late ≡ none
      → is_none failure ≡ true
  settle-none none late h = refl
  settle-none (some e) none h = cc
  settle-none (some e) (some f) h = cc

  is_none_sound : {A : Type 0} (o : Option A) → is_none o ≡ true → o ≡ none
  is_none_sound none h = refl
  is_none_sound (some a) h = cc

  after_load-writes :
      (w : W) (answer : Result E Bytes)
      → is_none ((after_load write visible_header client w answer).1) ≡ true
      → (s : Bytes) × (answer ≡ ok s)
        × (content ((after_load write visible_header client w answer).0) ≡ content w ++ s)
  after_load-writes w (err e) h = cc
  after_load-writes w (ok s) h =
      (s, refl, (write_all-Complete write content appends w s).1 (is_none_sound _ h))

  send_action-writes :
      (w : W) (text : Result ActionError Bytes)
      → is_none ((send_action write w text).1) ≡ true
      → (s : Bytes) × (text ≡ ok s) × (content ((send_action write w text).0) ≡ content w ++ s)
  send_action-writes w (err e) h = cc
  send_action-writes w (ok s) h =
      (s, refl, (write_all-Complete write content appends w s).1 (is_none_sound _ h))

  finalized_load-Settled :
      (b : Bool) (request : LoadRequest) (w : W) (text : Result E Bytes) (r : Outcome write)
      → (is_none (r.1) ≡ true → (s : Bytes) × (text ≡ ok s) × (content (r.0) ≡ content w ++ s))
      → Settled write content
          (load_finals ((finalized_load write visible_header client b request r).1))
          (load_final b request.event_id)
          w
          text
          ((finalized_load write visible_header client b request r).0)
  finalized_load-Settled true request w text r h = (is_none (r.1), refl, (h, λ k. ap is_none k))
  finalized_load-Settled false request w text r h =
      (is_none (r.1), refl, (h, λ k. settle-none (r.1) _ k))

  finalized_event-Settled :
      (b : Bool) (request : EventRequest) (response : EventResponse) (w : W)
      (text : Result ActionError Bytes) (r : Outcome write)
      → (is_none (r.1) ≡ true → (s : Bytes) × (text ≡ ok s) × (content (r.0) ≡ content w ++ s))
      → (let calls = called_event request ∷ cursor_calls (response.effect).cursor in
          Settled write content
            (event_finals ((finalized_event write visible_header client b response calls r).1))
            (event_final b response.event_id)
            w
            text
            ((finalized_event write visible_header client b response calls r).0))
  finalized_event-Settled true request response w text r h =
      (is_none (r.1), event_finals-cursors (response.effect).cursor, (h, λ k. ap is_none k))
  finalized_event-Settled false request response w text r h = (
    is_none (r.1),
    event_finals-cursor (response.effect).cursor _,
    (h, λ k. settle-none (r.1) _ k),
  )

  -- A load whose event has a number is finalized in exactly one call, and one without a number in
  -- none. It is finalized as applied only when the session's answer was written whole, and
  -- always when the callback returns no error. The writer is an io.Writer: what it counts as
  -- written is in its content.
  pub dispatch_load-Settled :
      (w : W) (command : Command)
      → (let r = dispatch_load write visible_header client w command in
          Settled write content
            (load_finals (r.1))
            (load_final (command.event_id == 0) command.event_id)
            w
            (client.load (record { generation = command.generation; event_id = command.event_id }))
            (r.0))
  unfolding dispatch_load
  dispatch_load-Settled w command =
      finalized_load-Settled (command.event_id == 0) _ w _ _ (after_load-writes w _)

  -- When the session answers an event, the answer is finalized in exactly one call when it has a
  -- number, and in none when it has not. It is finalized as applied only when its effect was
  -- rendered and its text written whole, and always when the callback returns no error. The
  -- writer is an io.Writer: what it counts as written is in its content.
  pub dispatch_event-Settled :
      (w : W) (lookup_env : Bytes → Bytes) (command : Command) {response : EventResponse}
      → client.event (event_request write visible_header client lookup_env command) ≡ ok response
      → (let r = dispatch_event write visible_header client w lookup_env command in
          Settled write content
            (event_finals (r.1))
            (event_final (response.event_id == 0) response.event_id)
            w
            (event_action write visible_header client response)
            (r.0))
  unfolding dispatch_event
  dispatch_event-Settled w lookup_env command {response} h =
      rw h
        (finalized_event-Settled (response.event_id == 0) _ response w _ _ (send_action-writes w _))
