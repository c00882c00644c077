-- ===== src/Fzf/Input.antt =====
-- internal/fzf/input.go: the appendable reader that feeds fzf. The mutex makes each operation one
-- step on the state; `Wait` is the reply `waiting`, after which the reader tries again.
pub mod Order
use shell_picker.Base.{
  ℕ, Bool, true, false, Option, none, some, List, [], ◌∷◌, ◌++◌, Bytes, take, drop, length,
}

-- `InputStream`; an error is its text, `none` for nil.
pub record InputStream : Type 0 where
  pub buffer : Bytes
  pub closed : Bool
  pub cause : Option Bytes

-- What an operation returns: to the reader, or to a producer.
pub data Reply : Type 0 where
  nothing_read waiting end_of_input : Reply
  bytes_read : Bytes → Reply
  read_failed : Bytes → Reply
  done input_closed nil_publication : Reply
  publish_failed : Bytes → Reply

-- The calls; `append_after` carries what its callback returns, `none` for a nil callback.
pub data Call : Type 0 where
  read : ℕ → Call
  append : Bytes → Call
  append_after : Bytes → Option (Option Bytes) → Call
  close_with_error : Option Bytes → Call

abbrev pub new_input_stream : Bytes → InputStream
new_input_stream initial = record { buffer = initial; closed = false; cause = none }

abbrev end_reply : Option Bytes → Reply
end_reply none = end_of_input
end_reply (some e) = read_failed e

-- What a read of at least one byte finds in the buffer.
abbrev read_buffer : InputStream → ℕ → Bytes → InputStream × Reply
read_buffer s n [] = (s, elim s.closed [ true ↦ end_reply s.cause | false ↦ waiting ])
read_buffer s n (c ∷ cs) = ((record (s) { buffer = drop n (c ∷ cs) }), bytes_read (take n (c ∷ cs)))

-- `Read` into `n` bytes.
unfoldable pub read_step : InputStream → ℕ → InputStream × Reply
read_step s ℕ.zero = (s, nothing_read)
read_step s (ℕ.suc n) = read_buffer s (ℕ.suc n) s.buffer

abbrev write : InputStream → Bytes → InputStream
write s [] = s
write s (c ∷ cs) = record (s) { buffer = s.buffer ++ c ∷ cs }

-- `Append`.
unfoldable pub append_step : InputStream → Bytes → InputStream × Reply
append_step s batch = elim s.closed [ true ↦ (s, input_closed) | false ↦ (write s batch, done) ]

abbrev publish_batch : InputStream → Bytes → Option Bytes → InputStream × Reply
publish_batch s batch none = (write s batch, done)
publish_batch s batch (some e) = (s, publish_failed e)

-- `AppendAfter`.
unfoldable pub append_after_step : InputStream → Bytes → Option (Option Bytes) → InputStream × Reply
append_after_step s batch none = (s, nil_publication)
append_after_step s batch (some result) = elim s.closed [
  | true ↦ (s, input_closed)
  | false ↦ publish_batch s batch result
]

-- `closeWithError`, and `Close` with no cause.
unfoldable pub close_step : InputStream → Option Bytes → InputStream × Reply
close_step s cause = elim s.closed [
  | true ↦ (s, done)
  | false ↦ ((record (s) { closed = true; cause = cause }), done)
]

unfoldable pub call_step : InputStream → Call → InputStream × Reply
unfolding read_step append_step append_after_step close_step
call_step s (read n) = read_step s n
call_step s (append batch) = append_step s batch
call_step s (append_after batch publish) = append_after_step s batch publish
call_step s (close_with_error cause) = close_step s cause
