-- ===== src/SystemUser/Email.antt =====
-- The regular expression for an email address in webapp-admin/src/components/SystemUserForm.js.
pub mod Grammar
use identity_vault.Common.{
  ℕ, zero, suc, ◌<◌, ◌≡◌, refl, ◌↔◌, String, Bool, true, false, ◌&&◌, ◌||◌, Option, none, some,
  List, [], ◌∷◌, ◌++◌, arith, all, leb, ◌==◌, length, if◌then◌else◌, Bool-cases, inl, inr,
}
use identity_vault.Common.Text.{codes}

abbrev is_among : ℕ → List ℕ → Bool
is_among c [] = false
is_among c (d ∷ ds) = let rest = is_among c ds in if c == d then true else rest

-- `[a-zA-Z0-9-]`
abbrev pub is_label : ℕ → Bool
is_label c =
    (leb b'a' c && leb c b'z')
    || (leb b'A' c && leb c b'Z')
    || (leb b'0' c && leb c b'9')
    || c == b'-'

-- The signs of the class before the `@`: `.!#$%&’*+/=?^_{|}~` and the backquote; ’ has the code 8217.
abbrev signs : List ℕ
signs =
    46 ∷ 33 ∷ 35 ∷ 36 ∷ 37 ∷ 38 ∷ 8217 ∷ 42 ∷ 43 ∷ 47 ∷ 61 ∷ 63 ∷ 94 ∷ 95 ∷ 96 ∷ 123 ∷ 124 ∷ 125
    ∷ 126 ∷ []

abbrev pub is_local : ℕ → Bool
is_local c = is_label c || is_among c signs

-- Where in the expression the next character stands: its start, behind a character before the `@`, at
-- the start of a part of the domain, or in one.
pub data Place : Type 0 where
  start local part_start part : Place

unfoldable pub next_place : Place → ℕ → Option Place
next_place start c = if is_local c then some local else none
next_place local c = if c == b'@' then some part_start else if is_local c then some local else none
next_place part_start c = if is_label c then some part else none
next_place part c = if c == b'.' then some part_start else if is_label c then some part else none

abbrev is_final : Place → Bool
is_final part = true
is_final _ = false

unfoldable pub accepts : Place → List ℕ → Bool
unfolding next_place
accepts p [] = is_final p
accepts p (c ∷ cs) = elim (next_place p c) [ none ↦ false | some q ↦ accepts q cs ]

-- `/^[a-zA-Z0-9.!#$%&’*+/=?^_`{|}~-]+@[a-zA-Z0-9-]+(?:\.[a-zA-Z0-9-]+)*$/.test(email)`
unfoldable pub is_email : String → Bool
unfolding accepts
is_email email = accepts start (codes email)
