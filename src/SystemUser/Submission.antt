-- ===== src/SystemUser/Submission.antt =====
-- When webapp-admin/src/components/SystemUserForm.js sends its form.
use identity_vault.Common.{
  String, Bool, true, false, not, ◌||◌, ◌≡◌, ◌≢◌, refl, sym, ◌∙◌, ◌⊎◌, inl, inr, [], ◌∷◌, arith,
  Bool-cases, subst, eq_iff, str_eq,
}
use identity_vault.Common.Text.{codes}
use identity_vault.Common.Number.{Number, pos, nan}
use identity_vault.Common.Number
use identity_vault.Common.Value.{Value, str, truthy, same_value, prop, get}
use identity_vault.Page.{ask}
use identity_vault.Resources.Assertions
use identity_vault.SystemUser.{Moment, State, form_of, validate, on_submit}
use identity_vault.SystemUser.Email.{is_email, accepts, next_place}
use identity_vault.SystemUser.Email.Grammar.{IsEmail, is_email_iff}

-- Nothing is left out, and the address has the shape of one.
pub record IsComplete {M : Type 0} (s : State M) : Type 0 where
  pub email : IsEmail (codes s.email)
  pub username : s.username ≢ ""
  pub password : s.password ≢ ""
  pub name : s.name ≢ ""
  pub model : Number.is_truthy s.model ≡ true

-- The form is sent.
abbrev pub IsSent : {M : Type 0} → Moment M → State M → Type 0
IsSent moment s =
    ((on_submit moment s).1 ≡ ask (Assertions.create (form_of moment s)) ∷ [])
    × ((on_submit moment s).0 ≡ record s { message = str "" })

-- Nothing is sent, and a message is shown.
abbrev pub IsHeld : {M : Type 0} → Moment M → State M → Type 0
IsHeld moment s =
    ((on_submit moment s).1 ≡ [])
    × ((message : Value) × (truthy message ≡ true)
        × ((on_submit moment s).0 ≡ record s { message = message }))

is_empty : (t : String) → t ≢ "" → str_eq t "" ≡ false
is_empty t h = ground (arith, eq_iff t "")

nonzero : (n : Number) → Number.is_truthy n ≡ true → Number.same n (pos 0) ≡ false
nonzero n h = ground arith

-- An address is not empty.
address_nonempty : (t : String) → IsEmail (codes t) → str_eq t "" ≡ false
unfolding is_email accepts next_place
address_nonempty t e =
    is_empty t (λ h. no_address (subst (λ u. is_email u ≡ true) h ((is_email_iff t).1 e)))
  where
    no_address : false ≡ true → ⊥
    no_address x = cc

complete-IsSent : {M : Type 0} (moment : Moment M) (s : State M) → IsComplete s → IsSent moment s
unfolding on_submit validate form_of prop get same_value
complete-IsSent moment s c =
    let valid = (is_email_iff s.email).1 c.email in
    rw
      (
        on_submit,
        validate,
        address_nonempty s.email c.email,
        is_empty s.username c.username,
        is_empty s.password c.password,
        is_empty s.name c.name,
        c.model,
        nonzero s.model c.model,
        valid,
      )
      (refl, refl)

-- The tests of the form, in their order, and whether each passes.
abbrev first_failure : {M : Type 0} → State M → Bool
first_failure s =
    str_eq s.email ""
    || str_eq s.username ""
    || str_eq s.password ""
    || str_eq s.name ""
    || not (Number.is_truthy s.model)

not-IsComplete_of_failure : {M : Type 0} (s : State M) → first_failure s ≡ true → IsComplete s → ⊥
not-IsComplete_of_failure s h c = absurd (
    false-ne-true (
      rw
        (
          address_nonempty s.email c.email,
          is_empty s.username c.username,
          is_empty s.password c.password,
          is_empty s.name c.name,
          c.model,
        )
        at h))
  where
    false-ne-true : false ≡ true → ⊥
    false-ne-true e = cc

incomplete-IsHeld :
    {M : Type 0} (moment : Moment M) (s : State M) → first_failure s ≡ true → IsHeld moment s
unfolding on_submit validate form_of prop get same_value
incomplete-IsHeld moment s h = elim (Bool-cases (str_eq s.email "")) [
  | inl e ↦ rw (on_submit, validate, e) (refl, (str "All the fields must be entered", refl, refl))
  | inr e ↦ elim (Bool-cases (str_eq s.username "")) [
    | inl u ↦
        rw (on_submit, validate, e, u) (refl, (str "All the fields must be entered", refl, refl))
    | inr u ↦ elim (Bool-cases (str_eq s.password "")) [
      | inl p ↦
          rw (on_submit, validate, e, u, p)
            (refl, (str "All the fields must be entered", refl, refl))
      | inr p ↦ elim (Bool-cases (str_eq s.name "")) [
        | inl n ↦
            rw (on_submit, validate, e, u, p, n)
              (refl, (str "All the fields must be entered", refl, refl))
        | inr n ↦ elim (Bool-cases (Number.is_truthy s.model)) [
          | inl m ↦ cc
          | inr m ↦
              rw (on_submit, validate, e, u, p, n, m)
                (refl, (str "All the fields must be entered", refl, refl))
        ]
      ]
    ]
  ]
]

invalid-IsHeld :
    {M : Type 0} (moment : Moment M) (s : State M)
    → first_failure s ≡ false
    → is_email s.email ≡ false
    → IsHeld moment s
unfolding on_submit validate form_of prop get same_value
invalid-IsHeld moment s h v =
    let (e, u, p, n, m) = passed h in
    rw (on_submit, validate, e, u, p, n, m, nonzero s.model m, v)
      (refl, (str "The email is not valid", refl, refl))
  where
    passed :
        first_failure s ≡ false
        → (str_eq s.email "" ≡ false)
          × (str_eq s.username "" ≡ false)
          × (str_eq s.password "" ≡ false)
          × (str_eq s.name "" ≡ false)
          × (Number.is_truthy s.model ≡ true)
    passed h = ground arith

passed-IsComplete :
    {M : Type 0} (s : State M) → first_failure s ≡ false → is_email s.email ≡ true → IsComplete s
passed-IsComplete s h v = record {
  email = (is_email_iff s.email).0 v;
  username = ground (arith, eq_iff s.username "");
  password = ground (arith, eq_iff s.password "");
  name = ground (arith, eq_iff s.name "");
  model = ground arith;
}

-- A complete form is sent as it stands, and its message cleared. Any other, with an empty text, no
-- model or an address of another shape, is not sent, and a message is shown in place of the old one;
-- nothing else changes in either case.
pub submit_cases :
    {M : Type 0} (moment : Moment M) (s : State M)
    → (IsComplete s × IsSent moment s) ⊎ ((IsComplete s → ⊥) × IsHeld moment s)
submit_cases moment s = elim (Bool-cases (first_failure s)) [
  | inl missing ↦ inr (not-IsComplete_of_failure s missing, incomplete-IsHeld moment s missing)
  | inr entered ↦ elim (Bool-cases (is_email s.email)) [
    | inl valid ↦ let c = passed-IsComplete s entered valid in inl (c, complete-IsSent moment s c)
    | inr invalid ↦ inr (
      λ c. wrong (sym invalid ∙ (is_email_iff s.email).1 c.email),
      invalid-IsHeld moment s entered invalid,
    )
  ]
]
  where
    wrong : false ≡ true → ⊥
    wrong e = cc
