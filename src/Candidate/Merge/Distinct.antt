-- ===== src/Candidate/Merge/Distinct.antt =====
-- What merging keeps (internal/candidate/builder.go, mergeRecords): the first record of each key.
use shell_picker.Base.{
  ◌≡◌, refl, sym, ap, ◌∙◌, subst, Bool, true, false, ◌||◌, if◌then◌else◌, List, [], ◌∷◌, ◌++◌,
  bytes_eq_refl, any, append_assoc, append-nil, All, All-append, Bool-cases, inl, inr, arith,
}
use shell_picker.Pathutil.Location.{no_location, filesystem, drives}
use shell_picker.Candidate.Entry.{Record, Picks, done, skip, pick}
use shell_picker.Candidate.Merge.{
  RecordKey, path_key, virtual_key, same_key, key_of, has_key, MergeState, new_merge, append_record,
  append_records, merge_into, merge_records, merge_new_records,
}

-- The records whose key is not in `seen` nor that of an earlier record.
distinct : List RecordKey → List Record → List Record
distinct seen [] = []
distinct seen (r ∷ rs) =
    let first = r ∷ distinct (key_of r ∷ seen) rs in
    let again = distinct seen rs in if has_key (key_of r) seen then again else first

-- The keys that are in `seen` after the records.
grow : List RecordKey → List Record → List RecordKey
grow seen [] = seen
grow seen (r ∷ rs) =
    let first = grow (key_of r ∷ seen) rs in
    let again = grow seen rs in if has_key (key_of r) seen then again else first

abbrev kept_if : Bool → List Record → List Record
kept_if true rs = rs
kept_if false rs = []

-- The state after a loop, by the two functions.
after : Bool → MergeState → List Record → MergeState
after collect st rs = record {
  seen = grow st.seen rs;
  merged = st.merged ++ distinct st.seen rs;
  admitted = st.admitted ++ kept_if collect (distinct st.seen rs);
}

append_records-after :
    (collect : Bool) (st : MergeState) (rs : List Record)
    → append_records collect st rs ≡ after collect st rs
unfolding append_records append_record after grow distinct
append_records-after collect st [] = ground (arith, append-nil st.merged, append-nil st.admitted)
append_records-after collect st (r ∷ rs) = elim (Bool-cases (has_key (key_of r) st.seen)) [
  | inl e ↦ rw e (append_records-after collect st rs)
  | inr e ↦
      let next = append_record collect st r in
      let more = distinct (key_of r ∷ st.seen) rs in
      append_records-after collect next rs
      ∙ ground (
        arith,
        append_assoc st.merged (r ∷ []) more,
        append_assoc st.admitted (r ∷ []) more,
        append-nil st.admitted,
        append-nil (st.admitted ++ r ∷ []),
      )
]

-- Each record has another key than those in `seen` and those of the records before it.
pub NoRepeat : List RecordKey → List Record → Type 0
NoRepeat seen [] = Unit
NoRepeat seen (r ∷ rs) = (has_key (key_of r) seen ≡ false) × NoRepeat (key_of r ∷ seen) rs

if-pred :
    {A : Type 0} (P : A → Type 0) (b : Bool) {x y : A}
    → (b ≡ true → P x)
    → (b ≡ false → P y)
    → P (if b then x else y)
if-pred P true f g = f refl
if-pred P false f g = g refl

Picks-distinct : (seen : List RecordKey) (rs : List Record) → Picks (distinct seen rs) rs
unfolding distinct
Picks-distinct seen [] = done
Picks-distinct seen (r ∷ rs) =
    if-pred (λ t. Picks t (r ∷ rs)) (has_key (key_of r) seen) (λ e. skip (Picks-distinct seen rs))
      (λ e. pick (Picks-distinct (key_of r ∷ seen) rs))

NoRepeat-distinct :
    (seen : List RecordKey) (rs more : List Record)
    → NoRepeat (grow seen rs) more
    → NoRepeat seen (distinct seen rs ++ more)
unfolding distinct grow NoRepeat
NoRepeat-distinct seen [] more h = h
NoRepeat-distinct seen (r ∷ rs) more h = elim (Bool-cases (has_key (key_of r) seen)) [
  | inl e ↦ rw e (NoRepeat-distinct seen rs more (rw e at h))
  | inr e ↦ rw e (e, NoRepeat-distinct (key_of r ∷ seen) rs more (rw e at h))
]

same_key_refl : (k : RecordKey) → same_key k k ≡ true
unfolding same_key
same_key_refl (path_key p) = bytes_eq_refl p
same_key_refl (virtual_key no_location p w) = ground (arith, bytes_eq_refl p, bytes_eq_refl w)
same_key_refl (virtual_key filesystem p w) = ground (arith, bytes_eq_refl p, bytes_eq_refl w)
same_key_refl (virtual_key drives p w) = ground (arith, bytes_eq_refl p, bytes_eq_refl w)

-- Whether one of the records has the key.
unfoldable pub has_record : RecordKey → List Record → Bool
has_record k rs = any (λ r. same_key (key_of r) k) rs

has_key-grow :
    (k : RecordKey) (seen : List RecordKey) (rs : List Record)
    → has_key k (grow seen rs) ≡ (has_record k (distinct seen rs) || has_key k seen)
unfolding grow distinct has_record has_key
has_key-grow k seen [] = refl
has_key-grow k seen (r ∷ rs) =
    ground (arith, has_key-grow k seen rs, has_key-grow k (key_of r ∷ seen) rs)

covers :
    (seen : List RecordKey) (rs : List Record)
    → All (λ r. has_key (key_of r) (grow seen rs) ≡ true) rs
unfolding grow has_key
covers seen [] = tt
covers seen (r ∷ rs) = elim (Bool-cases (has_key (key_of r) seen)) [
  | inl e ↦
      let step : grow seen (r ∷ rs) ≡ grow seen rs = rw e in
      subst (λ g. All (λ x. has_key (key_of x) g ≡ true) (r ∷ rs)) (sym step)
        (has_key-grow (key_of r) seen rs ∙ ground arith, covers seen rs)
  | inr e ↦
      let step : grow seen (r ∷ rs) ≡ grow (key_of r ∷ seen) rs = rw e in
      subst (λ g. All (λ x. has_key (key_of x) g ≡ true) (r ∷ rs)) (sym step)
        (
          has_key-grow (key_of r) (key_of r ∷ seen) rs ∙ ground (arith, same_key_refl (key_of r)),
          covers (key_of r ∷ seen) rs,
        )
]

All-map :
    {A : Type 0} {P Q : A → Type 0} (f : (a : A) → P a → Q a) (xs : List A) → All P xs → All Q xs
All-map f [] h = tt
All-map f (x ∷ xs) h = (f x h.0, All-map f xs h.1)

has_record-append :
    (k : RecordKey) (xs ys : List Record)
    → has_record k (xs ++ ys) ≡ (has_record k xs || has_record k ys)
unfolding has_record
has_record-append k [] ys = refl
has_record-append k (x ∷ xs) ys = ground (arith, has_record-append k xs ys)

-- What merging promises: the kept records of the base, then the admitted additions, each list in
-- its order; no two with one key; for every record of the base a kept one with its key, so that no
-- addition takes its place; and for every addition one with its key.
pub record Merged (base additions merged admitted : List Record) : Type 0 where
  pub kept : List Record
  pub merged_eq : merged ≡ kept ++ admitted
  pub from_base : Picks kept base
  pub from_additions : Picks admitted additions
  pub no_repeat : NoRepeat [] merged
  pub base_wins : All (λ r. has_record (key_of r) kept ≡ true) base
  pub covered : All (λ r. has_record (key_of r) merged ≡ true) (base ++ additions)

covered_by :
    (base additions : List Record)
    → let seen = grow [] base in
      let all_kept = distinct [] base ++ distinct seen additions in
      All (λ r. has_record (key_of r) all_kept ≡ true) (base ++ additions)
unfolding has_key
covered_by base additions =
    let seen = grow [] base in
    let kept = distinct [] base in
    let admitted = distinct seen additions in
    All-append (λ r. has_record (key_of r) (kept ++ admitted) ≡ true) base additions
      (All-map {P = λ r. has_key (key_of r) seen ≡ true}
        (λ r h.
          ground
            (arith, has_record-append (key_of r) kept admitted, has_key-grow (key_of r) [] base))
        base (covers [] base))
      (All-map {P = λ r. has_key (key_of r) (grow seen additions) ≡ true}
        (λ r h. ground (
          arith,
          has_record-append (key_of r) kept admitted,
          has_key-grow (key_of r) seen additions,
          has_key-grow (key_of r) [] base,
        ))
        additions (covers seen additions))

base_covered :
    (base : List Record) → All (λ r. has_record (key_of r) (distinct [] base) ≡ true) base
unfolding has_key
base_covered base =
    All-map {P = λ r. has_key (key_of r) (grow [] base) ≡ true}
      (λ r h. ground (arith, has_key-grow (key_of r) [] base)) base (covers [] base)

-- The merged state by the two functions.
merge_into-after :
    (base additions : List Record) (collect : Bool)
    → merge_into base additions collect ≡ after collect (after false new_merge base) additions
unfolding merge_into
merge_into-after base additions collect =
    append_records-after collect (append_records false new_merge base) additions
    ∙ ap (λ st. after collect st additions) (append_records-after false new_merge base)

-- MergeNewRecords keeps the base's records first and then the admitted additions, each in its
-- order; no two records have one key; each record of the base has a kept record of the base with
-- its key, so that no addition replaces one; and no key of an addition is lost.
pub merge_new_records-Merged :
    (base additions : List Record)
    → Merged base additions
        (merge_new_records base additions).0
        (merge_new_records base additions).1
unfolding merge_new_records after NoRepeat
merge_new_records-Merged base additions =
    let kept = distinct [] base in
    let admitted = distinct (grow [] base) additions in
    let no_repeat : NoRepeat [] (kept ++ admitted) = NoRepeat-distinct [] base admitted (
      subst (NoRepeat (grow [] base)) (append-nil admitted)
        (NoRepeat-distinct (grow [] base) additions [] tt)) in
    subst (λ st. Merged base additions st.merged st.admitted)
      (sym (merge_into-after base additions true))
      (record {
        kept = kept;
        merged_eq = refl;
        from_base = Picks-distinct [] base;
        from_additions = Picks-distinct (grow [] base) additions;
        no_repeat = no_repeat;
        base_wins = base_covered base;
        covered = covered_by base additions;
      })

-- MergeRecords and MergeNewRecords give the same list.
pub merge_records-merge_new_records :
    (base additions : List Record)
    → merge_records base additions ≡ (merge_new_records base additions).0
unfolding merge_records merge_new_records after
merge_records-merge_new_records base additions =
    ap (λ st. st.merged) (merge_into-after base additions false ∙ refl)
    ∙ sym (ap (λ st. st.merged) (merge_into-after base additions true))
