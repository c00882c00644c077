-- ===== src/Callback/Dispatch/Complete.antt =====
-- internal/callback/dispatch.go: the loop of writeAll.
use shell_picker.Base.{
  ℕ, zero, suc, ◌≤◌, ◌≢◌, refl, sym, subst, if◌then◌else◌, true, false, ltb, Option, none, some, [],
  ◌∷◌, ◌++◌, Bytes, ◌≡◌, ap, ◌∙◌, take, drop, length, take-append-drop, arith, append_assoc,
  append-nil,
}
use shell_picker.Callback.Dispatch.{
  Written, DispatchError, failed, out_of_rounds, short_write, write_rounds, write_all, Outcome,
  advance, after_write, after_count,
}

-- What an io.Writer with content `content` promises: the bytes that it counts are in it.
abbrev pub Appends : {W E : Type 0} → (W → Bytes → W × Written E) → (W → Bytes) → Type 0
Appends write content =
    (w : _) (s : Bytes) (n : ℕ)
    → ((write w s).1).count ≡ some n
    → n ≤ length s
    → content ((write w s).0) ≡ content w ++ take n s

-- The loop ended by itself, and without an error it left the content `all`.
abbrev pub Complete :
    {W E : Type 0} (write : W → Bytes → W × Written E)
    → (W → Bytes)
    → Bytes
    → Outcome write
    → Type 0
Complete write content all r = (r.1 ≢ some out_of_rounds) × (r.1 ≡ none → content (r.0) ≡ all)

length-drop_le : (n : ℕ) (s : Bytes) → length (drop n s) ≤ length s
length-drop_le zero s = omega arith
length-drop_le (suc n) [] = omega arith
length-drop_le (suc n) (c ∷ s) = omega (arith, length-drop_le n s)

drop_shorter : (n : ℕ) (c : ℕ) (s : Bytes) → n ≢ 0 → length (drop n (c ∷ s)) ≤ length s
drop_shorter zero c s h = absurd (h refl)
drop_shorter (suc n) c s h = length-drop_le n s

module _ {W E : Type 0} (write : W → Bytes → W × Written E) (content : W → Bytes) where
  fails-Complete :
      (all : Bytes) (w : W) (e : DispatchError E)
      → e ≢ out_of_rounds
      → Complete write content all (w, some e)
  fails-Complete all w e h = ((λ k. h cc), λ k. cc)

  after_count-Complete :
      (all : Bytes) (w : W) (n : ℕ) (failure : Option E) (rest : Outcome write)
      → (n ≢ 0 → Complete write content all rest)
      → Complete write content all (after_count write w n failure rest)
  after_count-Complete all w n (some e) rest h = fails-Complete all w (failed e) (λ k. cc)
  after_count-Complete all w zero none rest h = fails-Complete all w short_write (λ k. cc)
  after_count-Complete all w (suc n) none rest h = h (λ k. omega arith)

  after_write-Complete :
      (all : Bytes) (w : W) (size : ℕ) (count : Option ℕ) (failure : Option E)
      (rest : Outcome write)
      → ((n : ℕ) → count ≡ some n → n ≢ 0 → n ≤ size → Complete write content all rest)
      → Complete write content all (after_write write w size count failure rest)
  after_write-Complete all w size none failure rest h = fails-Complete all w short_write (λ k. cc)
  after_write-Complete all w size (some n) failure rest h =
      elim (ltb size n)
          as (λ b.
            ltb size n ≡ b
            → Complete write content all
                (if b then (w, some short_write) else after_count write w n failure rest)) [
                  | true ↦ λ k. fails-Complete all w short_write (λ j. cc)
                  | false ↦ λ k.
                      after_count-Complete all w n failure rest (λ z. h n refl z (ground arith))
                ]
        refl

  module _ (appends : Appends write content) where
    next_round :
        (fuel : ℕ) (w : W) (s : Bytes) (n : ℕ)
        → ((write w s).1).count ≡ some n
        → n ≤ length s
        → Complete write content
            (content ((write w s).0) ++ drop n s)
            (write_rounds write fuel ((write w s).0) (drop n s))
        → Complete write content
            (content w ++ s)
            (write_rounds write fuel ((write w s).0) (advance write ((write w s).1).count s))
    next_round fuel w s n e h k =
        subst
          (λ o.
            Complete write content (content w ++ s)
              (write_rounds write fuel ((write w s).0) (advance write o s)))
          (sym e)
          (subst
            (λ all. Complete write content all (write_rounds write fuel ((write w s).0) (drop n s)))
            (ap (λ t. t ++ drop n s) (appends w s n e h)
              ∙ (append_assoc (content w) (take n s) (drop n s)
                  ∙ ap (λ t. content w ++ t) (take-append-drop n s)))
            k)

    write_rounds-Complete :
        (fuel : ℕ) (w : W) (s : Bytes)
        → length s ≤ fuel
        → Complete write content (content w ++ s) (write_rounds write fuel w s)
    unfolding write_rounds
    write_rounds-Complete fuel w [] h = ((λ k. cc), λ k. sym (append-nil (content w)))
    write_rounds-Complete zero w (c ∷ s) h = absurd (omega arith)
    write_rounds-Complete (suc fuel) w (c ∷ s) h =
        after_write-Complete (content w ++ c ∷ s) ((write w (c ∷ s)).0) (length (c ∷ s))
          (((write w (c ∷ s)).1).count) (((write w (c ∷ s)).1).failure) _
          (λ n e z k. next_round fuel w (c ∷ s) n e k (
            write_rounds-Complete fuel ((write w (c ∷ s)).0) (drop n (c ∷ s))
              (omega (arith, drop_shorter n c s z, h))))

    -- writeAll ends by itself, and when it returns no error, the writer has got all the bytes, in
    -- order. The writer is an io.Writer: what it counts as written is in its content.
    pub write_all-Complete :
        (w : W) (s : Bytes) → Complete write content (content w ++ s) (write_all write w s)
    unfolding write_all
    write_all-Complete w s = write_rounds-Complete (length s) w s (omega arith)
