-- ===== src/Fzf/Input/Order.antt =====
-- The order of the bytes and the effect of closing (internal/fzf/input.go).
use shell_picker.Base.{
  ℕ, suc, ◌≡◌, refl, sym, ap, ◌∙◌, Bool, true, false, List, [], ◌∷◌, ◌++◌, Bytes, any,
  take-append-drop, append_assoc, append-nil, arith, Option-cases, Bool-cases, inl, inr,
}
use shell_picker.Fzf.Input.{
  InputStream, Reply, Call, read, append, append_after, close_with_error, read_step, append_step,
  append_after_step, close_step, call_step, bytes_read, read_buffer, done, waiting,
}

-- The calls one after the other, each with its reply.
unfoldable pub run_calls : InputStream → List (Call) → InputStream × List (Call × Reply)
run_calls s [] = (s, [])
run_calls s (c ∷ cs) =
    let next = call_step s c in let rest = run_calls next.0 cs in (rest.0, (c, next.1) ∷ rest.1)

-- What one call delivered to the reader, and what it took from a producer.
abbrev pub delivered_by : Call → Reply → Bytes
delivered_by c (bytes_read bs) = bs
delivered_by c _ = []

abbrev pub taken_by : Call → Reply → Bytes
taken_by (append batch) done = batch
taken_by (append_after batch publish) done = batch
taken_by _ _ = []

unfoldable pub concat_by : (Call → Reply → Bytes) → List (Call × Reply) → Bytes
concat_by f [] = []
concat_by f ((c, r) ∷ xs) = f c r ++ concat_by f xs

read_buffer-conserves :
    (s : InputStream) (n : ℕ) (b : Bytes)
    → s.buffer ≡ b
    → delivered_by (read n) (read_buffer s n b).1 ++ (read_buffer s n b).0.buffer ≡ b
read_buffer-conserves s n [] e = elim (Bool-cases s.closed) [
  | inl c ↦ ground (arith, Option-cases s.cause)
  | inr c ↦ ground arith
]
read_buffer-conserves s n (c ∷ cs) e = take-append-drop n (c ∷ cs)

call_step-conserves :
    (s : InputStream) (c : Call)
    → delivered_by c (call_step s c).1 ++ (call_step s c).0.buffer
      ≡ s.buffer ++ taken_by c (call_step s c).1
unfolding call_step read_step append_step append_after_step close_step
call_step-conserves s (read ℕ.zero) = sym (append-nil s.buffer)
call_step-conserves s (read (ℕ.suc n)) =
    read_buffer-conserves s (suc n) s.buffer refl ∙ sym (append-nil s.buffer)
call_step-conserves s (append []) = ground (arith, append-nil s.buffer)
call_step-conserves s (append (b ∷ batch)) = ground (arith, append-nil s.buffer)
call_step-conserves s (append_after [] publish) = ground (arith, append-nil s.buffer)
call_step-conserves s (append_after (b ∷ batch) publish) = ground (arith, append-nil s.buffer)
call_step-conserves s (close_with_error cause) = ground (arith, append-nil s.buffer)

-- The order of the stream is kept whatever the interleaving of the calls: what the reader was
-- given, followed by what is still buffered, is what was buffered at first, followed by the
-- batches of the producers whose call succeeded.
pub run_calls-conserves :
    (s : InputStream) (cs : List Call)
    → concat_by delivered_by (run_calls s cs).1 ++ (run_calls s cs).0.buffer
      ≡ s.buffer ++ concat_by taken_by (run_calls s cs).1
unfolding run_calls concat_by
run_calls-conserves s [] = sym (append-nil s.buffer)
run_calls-conserves s (c ∷ cs) =
    let next = call_step s c in
    append_assoc (delivered_by c next.1) _ _
    ∙ ap (λ t. delivered_by c next.1 ++ t) (run_calls-conserves next.0 cs)
    ∙ sym (append_assoc (delivered_by c next.1) _ _)
    ∙ ap (λ t. t ++ concat_by taken_by (run_calls next.0 cs).1) (call_step-conserves s c)
    ∙ append_assoc s.buffer _ _

abbrev pub is_waiting : Reply → Bool
is_waiting waiting = true
is_waiting _ = false

-- What holds of calls on a closed stream, seen from its state before, and after with the replies.
pub record Drains (s s' : InputStream) (replies : List (Call × Reply)) : Type 0 where
  pub closed : s'.closed ≡ true
  pub same_cause : s'.cause ≡ s.cause
  pub none_taken : concat_by taken_by replies ≡ []
  pub no_wait : any (λ x. is_waiting x.1) replies ≡ false
