-- ===== src/SystemUser/Email/Grammar.antt =====
-- The addresses that the expression of webapp-admin/src/components/SystemUserForm.js describes.
use identity_vault.Common.{
  ℕ, ◌≡◌, refl, sym, ap, ◌∙◌, ◌↔◌, String, Bool, true, false, none, some, List, [], ◌∷◌, ◌++◌,
  arith, inl, inr, ◌≢◌, ◌⊎◌,
}
use mathlib.Core.List.{append-nil}
use identity_vault.Common.Text.{codes}
use identity_vault.SystemUser.Email.{
  is_label, is_local, Place, start, local, part_start, part, next_place, accepts, is_email,
}

-- A character of a class, or more, as `[...]+` describes them.
pub data IsRun (f : ℕ → Bool) : List ℕ → Type 0 where
  one : (c : ℕ) → f c ≡ true → IsRun f (c ∷ [])
  and_more : (c : ℕ) (cs : List ℕ) → f c ≡ true → IsRun f cs → IsRun f (c ∷ cs)

-- Runs of the characters of a domain, with full stops between.
pub data IsDomain : List ℕ → Type 0 where
  last : (d : List ℕ) → IsRun is_label d → IsDomain d
  and_part : (d e : List ℕ) → IsRun is_label d → IsDomain e → IsDomain (d ++ b'.' ∷ e)

-- A run of the characters before the sign, the sign, and a domain.
pub record IsEmail (cs : List ℕ) : Type 0 where
  pub user : List ℕ
  pub domain : List ℕ
  pub parts : cs ≡ user ++ b'@' ∷ domain
  pub user_run : IsRun is_local user
  pub domain_parts : IsDomain domain

IsDomain-cons : (c : ℕ) (d : List ℕ) → is_label c ≡ true → IsDomain d → IsDomain (c ∷ d)
IsDomain-cons c d h (last d' r) = last (c ∷ d') (and_more c d' h r)
IsDomain-cons c d h (and_part d' e r k) = and_part (c ∷ d') e (and_more c d' h r) k

IsEmail-cons : (c : ℕ) (cs : List ℕ) → is_local c ≡ true → IsEmail cs → IsEmail (c ∷ cs)
IsEmail-cons c cs h e = record {
  user = c ∷ e.user;
  domain = e.domain;
  parts = ap (λ r. c ∷ r) e.parts;
  user_run = and_more c e.user h e.user_run;
  domain_parts = e.domain_parts;
}

accepts-some :
    (p q : Place) (c : ℕ) (cs : List ℕ)
    → next_place p c ≡ some q
    → accepts p (c ∷ cs) ≡ accepts q cs
unfolding accepts
accepts-some p q c cs e = rw (accepts, e) refl

accepts-none : (p : Place) (c : ℕ) (cs : List ℕ) → next_place p c ≡ none → accepts p (c ∷ cs) ≢ true
unfolding accepts
accepts-none p c cs e h = false-ne-true (sym (rw (accepts, e) refl) ∙ h)
  where
    false-ne-true : false ≡ true → ⊥
    false-ne-true e = cc

-- What can follow a place, with the place behind it.
next_cases :
    (c : ℕ)
    → ((c ≡ b'.') × (next_place part c ≡ some part_start) × (next_place part_start c ≡ none))
      ⊎ ((is_label c ≡ true)
          × (next_place part c ≡ some part)
          × (next_place part_start c ≡ some part))
      ⊎ ((next_place part c ≡ none) × (next_place part_start c ≡ none))
unfolding next_place
next_cases c = ground arith

next_local_cases :
    (c : ℕ)
    → ((c ≡ b'@') × (next_place local c ≡ some part_start) × (next_place start c ≡ none))
      ⊎ ((is_local c ≡ true)
          × (next_place local c ≡ some local)
          × (next_place start c ≡ some local))
      ⊎ ((next_place local c ≡ none) × (next_place start c ≡ none))
unfolding next_place
next_local_cases c = ground arith

-- What the expression takes behind a first character of a part, and at the start of one.
accepts-IsDomain :
    (cs : List ℕ)
    → ((c : ℕ) → is_label c ≡ true → accepts part cs ≡ true → IsDomain (c ∷ cs))
      × (accepts part_start cs ≡ true → IsDomain cs)
unfolding accepts
accepts-IsDomain [] = (λ c h a. last (c ∷ []) (one c h), λ a. cc)
accepts-IsDomain (d ∷ cs) =
    let (in_part, at_start) = accepts-IsDomain cs in
    elim (next_cases d) [
      | inl (e, n, m) ↦ (
        λ c h a. rw e (
            and_part (c ∷ []) cs (one c h)
              (at_start (sym (accepts-some part part_start d cs n) ∙ a))),
        λ a. absurd (accepts-none part_start d cs m a),
      )
      | inr (inl (label, n, m)) ↦ (
        λ c h a.
            IsDomain-cons c (d ∷ cs) h (in_part d label (sym (accepts-some part part d cs n) ∙ a)),
        λ a. in_part d label (sym (accepts-some part_start part d cs m) ∙ a),
      )
      | inr (inr (n, m)) ↦ (
        λ c h a. absurd (accepts-none part d cs n a),
        λ a. absurd (accepts-none part_start d cs m a),
      )
    ]

-- What it takes behind a first character before the sign.
accepts_local-IsEmail :
    (cs : List ℕ) (c : ℕ) → is_local c ≡ true → accepts local cs ≡ true → IsEmail (c ∷ cs)
unfolding accepts
accepts_local-IsEmail [] c h a = cc
accepts_local-IsEmail (d ∷ cs) c h a = elim (next_local_cases d) [
  | inl (e, n, m) ↦ record {
    user = c ∷ [];
    domain = cs;
    parts = ap (λ x. c ∷ x ∷ cs) e;
    user_run = one c h;
    domain_parts = (accepts-IsDomain cs).1 (sym (accepts-some local part_start d cs n) ∙ a);
  }
  | inr (inl (is_one, n, m)) ↦
      IsEmail-cons c (d ∷ cs) h
        (accepts_local-IsEmail cs d is_one (sym (accepts-some local local d cs n) ∙ a))
  | inr (inr (n, m)) ↦ absurd (accepts-none local d cs n a)
]

accepts-IsEmail : (cs : List ℕ) → accepts start cs ≡ true → IsEmail cs
unfolding accepts
accepts-IsEmail [] a = cc
accepts-IsEmail (c ∷ cs) a = elim (next_local_cases c) [
  | inl (e, n, m) ↦ absurd (accepts-none start c cs m a)
  | inr (inl (is_one, n, m)) ↦
      accepts_local-IsEmail cs c is_one (sym (accepts-some start local c cs m) ∙ a)
  | inr (inr (n, m)) ↦ absurd (accepts-none start c cs m a)
]

next_label :
    (c : ℕ)
    → is_label c ≡ true
    → (next_place part c ≡ some part) × (next_place part_start c ≡ some part)
unfolding next_place
next_label c h = ground arith

next_local :
    (c : ℕ)
    → is_local c ≡ true
    → (next_place local c ≡ some local) × (next_place start c ≡ some local)
unfolding next_place
next_local c h = ground arith

-- A run leads through its place.
accepts-IsRun :
    (f : ℕ → Bool) (p q : Place)
    → ((c : ℕ) → f c ≡ true → (next_place p c ≡ some p) × (next_place q c ≡ some p))
    → (d e : List ℕ) → IsRun f d
    → (accepts p (d ++ e) ≡ accepts p e) × (accepts q (d ++ e) ≡ accepts p e)
accepts-IsRun f p q next d e (one c h) =
    (accepts-some p p c e (next c h).0, accepts-some q p c e (next c h).1)
accepts-IsRun f p q next d e (and_more c cs h r) =
    let (rest, _) = accepts-IsRun f p q next cs e r in
    (
      accepts-some p p c (cs ++ e) (next c h).0 ∙ rest,
      accepts-some q p c (cs ++ e) (next c h).1 ∙ rest,
    )

IsDomain-accepts : (d : List ℕ) → IsDomain d → accepts part_start d ≡ true
unfolding accepts next_place
IsDomain-accepts d (last d' r) =
    ap (accepts part_start) (sym (append-nil d'))
    ∙ (accepts-IsRun is_label part part_start next_label d' [] r).1
IsDomain-accepts d (and_part d' e r k) =
    (accepts-IsRun is_label part part_start next_label d' (b'.' ∷ e) r).1
    ∙ accepts-some part part_start b'.' e stop
    ∙ IsDomain-accepts e k
  where
    stop : next_place part b'.' ≡ some part_start
    stop = refl

IsEmail-accepts : (cs : List ℕ) → IsEmail cs → accepts start cs ≡ true
unfolding next_place
IsEmail-accepts cs e =
    ap (accepts start) e.parts
    ∙ (accepts-IsRun is_local local start next_local e.user (b'@' ∷ e.domain) e.user_run).1
    ∙ accepts-some local part_start b'@' e.domain sign
    ∙ IsDomain-accepts e.domain e.domain_parts
  where
    sign : next_place local b'@' ≡ some part_start
    sign = refl

-- The test of the form takes exactly the texts of the shape that the expression describes: a run of
-- the characters of its first class, an `@`, and runs of letters, digits and dashes with full stops
-- between them.
pub is_email_iff : (email : String) → (is_email email ≡ true) ↔ IsEmail (codes email)
unfolding is_email
is_email_iff email = (accepts-IsEmail (codes email), IsEmail-accepts (codes email))
