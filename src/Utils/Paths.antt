-- ===== src/Utils/Paths.antt =====
-- `sectionFromPath` and its companions in webapp-admin/src/components/Utils.js.
use text.Mathlib.TextLemmas.{nil-append, cons-append}
use identity_vault.Common.{
  ℕ, String, Bool, true, false, ◌&&◌, ◌≡◌, refl, ap, ◌∙◌, none, some, List, [], ◌∷◌, inl, inr,
  arith, str_eq, eq_iff, eq_refl, code, ◌==◌, if◌then◌else◌, find, get_elem?, Bool-cases, all,
  all-get_elem?,
}
use identity_vault.Common.Text.{◌<>◌, split, starts_with}
use identity_vault.Common.Text.Laws.{Lacks, split_of_Lacks, split-append_sep}
use identity_vault.Utils.{
  sections, section_from_path, section_id_from_path, sub_section_id_from_path, parts_of,
}

pub starts_with-append : (p r : String) → starts_with (p <> r) p ≡ true
unfolding starts_with
starts_with-append String.[] r = refl
starts_with-append (String.◌∷◌ c p) r = rw cons-append (ground (arith, starts_with-append p r))

-- The two texts differ at a place that both have.
abbrev pub clashes : String → String → Bool
clashes String.[] q = false
clashes (String.◌∷◌ c p) String.[] = false
clashes (String.◌∷◌ c p) (String.◌∷◌ d q) =
    let rest = clashes p q in if code c == code d then rest else true

pub not-starts_with-append : (p q r : String) → clashes p q ≡ true → starts_with (p <> r) q ≡ false
unfolding starts_with
not-starts_with-append String.[] q r h = cc
not-starts_with-append (String.◌∷◌ c p) String.[] r h = cc
not-starts_with-append (String.◌∷◌ c p) (String.◌∷◌ d q) r h =
    rw cons-append (ground (arith, not-starts_with-append p q r))

-- `s` is in the list, and what stands before it clashes with it.
abbrev separates : String → List String → Bool
separates s [] = false
separates s (t ∷ ts) =
    let rest = separates s ts in if str_eq s t then true else clashes ("/" <> s) ("/" <> t) && rest

find-section :
    (s r : String) (ts : List String)
    → separates s ts ≡ true
    → find (λ t. starts_with (("/" <> s) <> r) ("/" <> t)) ts ≡ some s
find-section s r [] h = cc
find-section s r (t ∷ ts) h = elim (Bool-cases (str_eq s t)) [
  | inl same ↦
      let e : s ≡ t = (eq_iff s t).0 same in rw (← e) (rw (starts_with-append ("/" <> s) r))
  | inr other ↦ ground (arith, not-starts_with-append ("/" <> s) ("/" <> t) r, find-section s r ts)
]

section_from_path-append :
    (s r : String) → separates s sections ≡ true → section_from_path (("/" <> s) <> r) ≡ s
unfolding section_from_path
section_from_path-append s r h = elim (Bool-cases (str_eq (("/" <> s) <> r) "/")) [
  | inl root ↦
      let e : ("/" <> s) <> r ≡ "/" = (eq_iff _ "/").0 root in
      let f = find-section s r sections h in
      let k : find (λ t. starts_with "/" ("/" <> t)) sections ≡ some s = rw e at f in
      absurd (no_section s (unfold starts_with in k))
  | inr other ↦ rw (other, find-section s r sections h)
]
  where
    no_section : (s : String) → none ≡ some s → ⊥
    no_section s e = cc

-- The sections that the pages dispatch on, the nine of Utils.js.
abbrev pub IsSection : String → Type 0
IsSection s = (i : ℕ) × (get_elem? sections i ≡ some s)

sections_separate : all (λ s. separates s sections) sections ≡ true
sections_separate = refl

pub slash-append : (s : String) → "/" <> s ≡ String.◌∷◌ "/" s
slash-append s = cons-append "/" "" s ∙ ap (String.◌∷◌ "/") (nil-append s)

-- Every path that begins with a slash and a section's name is of that section, whatever follows;
-- no section hides another.
pub section_from_path_lem : (s r : String) → IsSection s → section_from_path (("/" <> s) <> r) ≡ s
section_from_path_lem s r (i, e) =
    section_from_path-append s r
      (all-get_elem? (λ t. separates t sections) sections i sections_separate e)

-- The part behind a leading slash.
pub parts_of-slash : (s : String) → parts_of ("/" <> s) ≡ split b'/' s
unfolding split
parts_of-slash s = rw (slash-append s)

pub split-slash : (s t : String) → Lacks b'/' s → split b'/' (s <> "/" <> t) ≡ s ∷ split b'/' t
split-slash s t h = rw (slash-append t) (split-append_sep b'/' s "/" t h refl)

-- The identifier behind a section is read back, at the end of a path.
pub section_id_from_path_end :
    (s x : String) → Lacks b'/' s → Lacks b'/' x → section_id_from_path ("/" <> s <> "/" <> x) s ≡ x
unfolding section_id_from_path
section_id_from_path_end s x h k =
    rw (parts_of-slash (s <> "/" <> x), split-slash s x h, split_of_Lacks b'/' x k, eq_refl s)

-- The identifier behind a section is read back where more follows.
pub section_id_from_path_more :
    (s x r : String)
    → Lacks b'/' s
    → Lacks b'/' x
    → section_id_from_path ("/" <> s <> "/" <> x <> "/" <> r) s ≡ x
unfolding section_id_from_path
section_id_from_path_more s x r h k = rw (
  parts_of-slash (s <> "/" <> x <> "/" <> r),
  split-slash s (x <> "/" <> r) h,
  split-slash x r k,
  eq_refl s,
)

-- So is the one behind a section and a word.
pub sub_section_id_from_path_end :
    (s w x : String)
    → Lacks b'/' s
    → Lacks b'/' w
    → Lacks b'/' x
    → sub_section_id_from_path ("/" <> s <> "/" <> w <> "/" <> x) s ≡ x
unfolding sub_section_id_from_path
sub_section_id_from_path_end s w x h k l = rw (
  parts_of-slash (s <> "/" <> w <> "/" <> x),
  split-slash s (w <> "/" <> x) h,
  split-slash w x k,
  split_of_Lacks b'/' x l,
  eq_refl s,
)

-- A path that is only a section has no identifier.
pub section_id_from_path_none : (s : String) → Lacks b'/' s → section_id_from_path ("/" <> s) s ≡ ""
unfolding section_id_from_path
section_id_from_path_none s h = rw (parts_of-slash s, split_of_Lacks b'/' s h, eq_refl s)
