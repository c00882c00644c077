-- ===== src/Session/Selection/Picked.antt =====
-- What the loop over the records of the snapshot picks (internal/session/selection.go, ValidateCP).
use shell_picker.Base.{
  ℕ, ◌+◌, ◌≡◌, refl, sym, subst, ap, true, false, not, ◌||◌, ◌==◌, List, [], ◌∷◌, ◌++◌, map, Bytes,
  length, Result, ok, err, arith, All, inl, inr, Bool-cases,
}
use mathlib.Core.List.{Perm}
use mathlib.Core.List.Perm
use mathlib.Core.Logic.{if_pos, if_neg}
use shell_picker.Protocol.Record.{WireRecord}
use shell_picker.Pathutil.Location.{is_filesystem, relative}
use shell_picker.Candidate.Entry.{Record, wire, Picks, done, skip, pick}
use shell_picker.Session.State.{Error}
use shell_picker.Session.Resolve.{is_virtual}
use shell_picker.Session.Selection.{
  WireRecord-discrete, count_key, drop_key, select_paths, prepend_path,
}

-- A record of a place in the file system.
abbrev pub IsPath : Record → Type 0
IsPath r = (is_virtual r.kind ≡ false) × (is_filesystem r.target.kind ≡ true)

drop_key-perm :
    (key : WireRecord) (keys : List WireRecord)
    → (count_key key keys == 0) ≡ false
    → Perm keys (key ∷ drop_key key keys)
unfolding count_key drop_key
drop_key-perm key [] h = absurd (ground arith)
drop_key-perm key (k ∷ ks) h = elim (WireRecord-discrete k key) [
  | yes e ↦ rw (if_pos _ e, e) (Perm.refl (key ∷ ks))
  | no n ↦
      let counted : (count_key key ks == 0) ≡ false = rw (if_neg _ n) at h in
      rw (if_neg _ n) (
        Perm.trans (Perm.cons k (drop_key-perm key ks counted)) (Perm.swap key k (drop_key key ks)))
]

length-drop_key :
    (key : WireRecord) (keys : List WireRecord)
    → (count_key key keys == 0) ≡ false
    → length keys ≡ ℕ.suc (length (drop_key key keys))
unfolding count_key drop_key
length-drop_key key [] h = absurd (ground arith)
length-drop_key key (k ∷ ks) h = elim (WireRecord-discrete k key) [
  | yes e ↦ rw (if_pos _ e) refl
  | no n ↦
      let counted : (count_key key ks == 0) ≡ false = rw (if_neg _ n) at h in
      rw (if_neg _ n) (ap ℕ.suc (length-drop_key key ks counted))
]

-- What a selection of paths consists of.
pub record Selected (base : Bytes) (keys : List WireRecord) (rs : List Record) (paths : List Bytes)
    : Type 0 where
  pub picks : List Record
  pub rest : List WireRecord
  pub in_order : Picks picks rs
  pub are_paths : All IsPath picks
  pub relative_paths : paths ≡ map (λ r. relative base r.path) picks
  pub shared : Perm keys (map wire picks ++ rest)
  pub sizes : length keys ≡ length picks + length rest
  pub selected : length paths ≡ length picks

pick_record :
    (base : Bytes) (keys : List WireRecord) (r : Record) (rs : List Record) (ps : List Bytes)
    → (count_key (wire r) keys == 0) ≡ false
    → (is_virtual r.kind || not (is_filesystem r.target.kind)) ≡ false
    → Selected base (drop_key (wire r) keys) rs ps
    → Selected base keys (r ∷ rs) (relative base r.path ∷ ps)
pick_record base keys r rs ps c v s = record {
  picks = r ∷ s.picks;
  rest = s.rest;
  in_order = pick s.in_order;
  are_paths = ((ground arith, ground arith), s.are_paths);
  relative_paths = ap (λ t. relative base r.path ∷ t) s.relative_paths;
  shared = Perm.trans (drop_key-perm (wire r) keys c) (Perm.cons (wire r) s.shared);
  sizes = omega (arith, length-drop_key (wire r) keys c, s.sizes);
  selected = omega (arith, s.selected);
}

prepend_path-ok :
    (p : Bytes) (inner : Result Error (List Bytes)) {paths : List Bytes}
    → prepend_path p inner ≡ ok paths
    → (ps : List Bytes) × (inner ≡ ok ps) × (paths ≡ p ∷ ps)
prepend_path-ok p (err e) h = cc
prepend_path-ok p (ok ps) h = (ps, refl, ground arith)

skip_record :
    {base : Bytes} {keys : List WireRecord} {r : Record} {rs : List Record} {paths : List Bytes}
    → Selected base keys rs paths
    → Selected base keys (r ∷ rs) paths
skip_record s = record {
  picks = s.picks;
  rest = s.rest;
  in_order = skip s.in_order;
  are_paths = s.are_paths;
  relative_paths = s.relative_paths;
  shared = s.shared;
  sizes = s.sizes;
  selected = s.selected;
}

pub select_paths-Selected :
    (base : Bytes) (keys : List WireRecord) (rs : List Record) {paths : List Bytes}
    → select_paths base keys rs ≡ ok paths
    → Selected base keys rs paths
unfolding select_paths
select_paths-Selected base keys [] h = record {
  picks = [];
  rest = keys;
  in_order = done;
  are_paths = tt;
  relative_paths = ground arith;
  shared = Perm.refl keys;
  sizes = omega arith;
  selected = ground arith;
}
select_paths-Selected base keys (r ∷ rs) {paths} h =
    elim (Bool-cases (count_key (wire r) keys == 0)) [
      | inl e ↦ skip_record (select_paths-Selected base keys rs (ground arith))
      | inr e ↦ elim (Bool-cases (is_virtual r.kind || not (is_filesystem r.target.kind))) [
        | inl v ↦ absurd (ground arith)
        | inr v ↦
            let inner = select_paths base (drop_key (wire r) keys) rs in
            let (ps, g, e') =
              prepend_path-ok (relative base r.path) inner {paths = paths} (ground arith) in
            subst (λ t. Selected base keys (r ∷ rs) t) (sym e')
              (pick_record base keys r rs ps e v
                (select_paths-Selected base (drop_key (wire r) keys) rs g))
      ]
    ]
