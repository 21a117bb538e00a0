-- ===== src/Page/Outcomes.antt =====
-- How the callbacks of webapp-admin/src/components read an answer, beside what makes an answer good.
use identity_vault.Common.{
  String, true, false, ◌≡◌, refl, ◌<◌, ◌⊎◌, inl, inr, Option, none, some, [], ◌∷◌, arith,
  Bool-cases, Option-cases,
}
use identity_vault.Common.Value.{Value, undefined, null, prop, truthy}
use identity_vault.Http.{JsonParse, Response, readable, parsed, failed}
use identity_vault.Utils.{parse_response}
use identity_vault.Page.{
  refused_value, go_to, Result, Outcome, stopped, refused, accepted, outcome, outcome_of_success,
  outcome_of_response,
}

-- The answer is JSON and its status below 300.
abbrev pub IsDone : JsonParse → Response → Type 0
IsDone parse r = (d : Value) × (parse r.body ≡ some d) × (r.status_code < 300)

-- It reports a success besides.
abbrev pub IsDoneWell : JsonParse → Response → Type 0
IsDoneWell parse r =
    (d : Value) × (parse r.body ≡ some d)
    × (r.status_code < 300)
    × (truthy (prop "success" d) ≡ true)

-- It reports a success, whatever its status.
abbrev pub IsSuccess : JsonParse → Response → Type 0
IsSuccess parse r =
    (d : Value) × (parse_response parse r ≡ some d) × (truthy (prop "success" d) ≡ true)

-- What the pages read of an answer: a value with properties, if there is one.
abbrev pub answer_of : Option Value → Option Value
answer_of none = none
answer_of (some v) = readable v

-- A page is left for another exactly if the answer is good, and then with its state as it was; it else
-- stays, as it was if nothing can be read of the answer, and with the error of what is read otherwise.
abbrev pub IsGuarded {ℓ} :
    {S : Type ℓ} → Type 0 → Option Value → Result S → S → (Value → S) → String → Type ℓ
IsGuarded good read result s with_error target =
    (good × (result ≡ (s, go_to target ∷ [])))
    ⊎ (¬ good
        × (result.1 ≡ [])
        × (((answer_of read ≡ none) × (result.0 ≡ s))
            ⊎ ((d : Value) × (answer_of read ≡ some d) × (result.0 ≡ with_error d))))

-- What the pages make of an outcome.
abbrev pub settled {ℓ} : {S : Type ℓ} → Outcome → S → (Value → S) → String → Result S
settled o s with_error target = elim o [
  | stopped ↦ (s, [])
  | refused d ↦ (with_error d, [])
  | accepted d ↦ (s, go_to target ∷ [])
]

abbrev pub Accepts : Type 0 → Option Value → Outcome → Type 0
Accepts good read (accepted d) = good
Accepts good read (refused d) = ¬ good × (answer_of read ≡ some d)
Accepts good read stopped = ¬ good × (answer_of read ≡ none)

pub settled-IsGuarded :
    {S : Type 0} (good : Type 0) (read : Option Value) (o : Outcome) (s : S)
    (with_error : Value → S) (target : String)
    → Accepts good read o
    → IsGuarded good read (settled o s with_error target) s with_error target
settled-IsGuarded good read stopped s with_error target h = inr (h.0, refl, inl (h.1, refl))
settled-IsGuarded good read (refused d) s with_error target h = inr (h.0, refl, inr (d, h.1, refl))
settled-IsGuarded good read (accepted d) s with_error target h = inl (h, refl)

refused-Accepts :
    (good : Type 0) (v : Value) → ¬ good → Accepts good (some v) (refused_value (readable v))
refused-Accepts good undefined h = (h, refl)
refused-Accepts good null h = (h, refl)
refused-Accepts good (Value.flag b) h = (h, refl)
refused-Accepts good (Value.number n) h = (h, refl)
refused-Accepts good (Value.str t) h = (h, refl)
refused-Accepts good (Value.array vs) h = (h, refl)
refused-Accepts good (Value.object fs) h = (h, refl)

broken_text : {d : Value} → none ≡ some d → ⊥
broken_text e = cc

late : (r : Response) → failed r ≡ true → r.status_code < 300 → ⊥
late r f h = ground arith

pub outcome-Accepts :
    (parse : JsonParse) (r : Response) → Accepts (IsDone parse r) (parse r.body) (outcome parse r)
unfolding outcome
outcome-Accepts parse r = elim (Option-cases (parse r.body)) [
  | inl broken ↦ rw (outcome, broken) ((λ h. broken_text h.1), refl)
  | inr (d, whole) ↦ elim (Bool-cases (failed r)) [
    | inl bad ↦ rw (outcome, whole, bad) (refused-Accepts _ d (λ h. late r bad h.2))
    | inr good ↦ rw (outcome, whole, good) (d, refl, ground arith)
  ]
]

-- A value is read, or it has no property.
readable_cases :
    (d : Value)
    → ((readable d ≡ none) × (truthy (prop "success" d) ≡ false)) ⊎ (readable d ≡ some d)
unfolding prop
readable_cases undefined = inl (refl, refl)
readable_cases null = inl (refl, refl)
readable_cases (Value.flag b) = inr refl
readable_cases (Value.number n) = inr refl
readable_cases (Value.str t) = inr refl
readable_cases (Value.array vs) = inr refl
readable_cases (Value.object fs) = inr refl

no_success :
    {d e : Value}
    → some d ≡ some e
    → truthy (prop "success" d) ≡ false
    → truthy (prop "success" e) ≡ true
    → ⊥
no_success k f h = cc

pub outcome_of_success-Accepts :
    (parse : JsonParse) (r : Response)
    → Accepts (IsDoneWell parse r) (parse r.body) (outcome_of_success parse r)
unfolding outcome_of_success parsed
outcome_of_success-Accepts parse r = elim (Option-cases (parse r.body)) [
  | inl broken ↦ rw (outcome_of_success, parsed, broken) ((λ h. broken_text h.1), refl)
  | inr (d, whole) ↦ elim (readable_cases d) [
    | inl (unread, plain) ↦
        rw (outcome_of_success, parsed, whole, unread) ((λ h. no_success h.1 plain h.3), unread)
    | inr read ↦ elim (Bool-cases (failed r)) [
      | inl bad ↦ rw (outcome_of_success, parsed, whole, read, bad) ((λ h. late r bad h.2), read)
      | inr fine ↦ elim (Bool-cases (truthy (prop "success" d))) [
        | inl yes' ↦
            rw (outcome_of_success, parsed, whole, read, fine, yes') (d, refl, ground arith, yes')
        | inr no' ↦
            rw (outcome_of_success, parsed, whole, read, fine, no')
              ((λ h. no_success h.1 no' h.3), read)
      ]
    ]
  ]
]

pub outcome_of_response-Accepts :
    (parse : JsonParse) (r : Response)
    → Accepts (IsSuccess parse r) (parse_response parse r) (outcome_of_response parse r)
unfolding outcome_of_response
outcome_of_response-Accepts parse r = elim (Option-cases (parse_response parse r)) [
  | inl broken ↦ rw (outcome_of_response, broken) ((λ h. broken_text h.1), refl)
  | inr (d, whole) ↦ elim (readable_cases d) [
    | inl (unread, plain) ↦
        rw (outcome_of_response, whole, unread) ((λ h. no_success h.1 plain h.2), unread)
    | inr read ↦ elim (Bool-cases (truthy (prop "success" d))) [
      | inl yes' ↦ rw (outcome_of_response, whole, read, yes') (d, refl, yes')
      | inr no' ↦ rw (outcome_of_response, whole, read, no') ((λ h. no_success h.1 no' h.2), read)
    ]
  ]
]
