-- ===== src/KeypairPages/Polling.antt =====
-- When the polling of webapp-admin/src/components/KeypairStatus.js goes on, and what ends it.
use identity_vault.Common.{
  ◌+◌, ◌<◌, ◌≡◌, refl, arith, ◌⊎◌, inl, inr, true, none, some, Option-cases, Bool-cases, Bool,
  false, Option, ap, sym, ◌∙◌,
}
use identity_vault.Common.Value.{Value, prop}
use identity_vault.Http.{JsonParse, Response, parsed}
use identity_vault.KeypairPages.Status.{
  State, is_shown, opened, on_status, on_timer, Step, timer, answer, Reach, here, next,
}

-- One timer is set, or one request is without its answer.
abbrev pub IsLive : State → Type 0
IsLive s = s.timers + s.asked ≡ 1

-- The page can show the answer: it is read, and its list is shown without an exception.
abbrev pub IsShown : JsonParse → Response → Type 0
IsShown parse r = (d : Value) × (parsed parse r ≡ some d) × (is_shown (prop "status" d) ≡ true)

-- What one step makes of a live state.
abbrev Follows : JsonParse → State → State → Type 0
Follows parse s t =
    IsLive t
    ⊎ ((r : Response) × ¬ IsShown parse r × (t ≡ on_status parse r s) × (t.timers + t.asked ≡ 0))

abbrev shows : Option Value → Bool
shows none = false
shows (some d) = is_shown (prop "status" d)

answer-Follows :
    (parse : JsonParse) (s : State) (r : Response)
    → IsLive s
    → 0 < s.asked
    → Follows parse s (on_status parse r s)
unfolding on_status
answer-Follows parse s r h p = elim (Option-cases (parsed parse r)) [
  | inl e ↦ inr (r, (λ k. let (d, f, shown) = k in ground (arith, e, f)), refl, ground arith)
  | inr (d, e) ↦ elim (Bool-cases (is_shown (prop "status" d))) [
    | inl shown ↦ inl (ground (arith, shown, e))
    | inr hidden ↦ inr (
      r,
      (λ k.
          let (d', f, shown) = k in
          let same : is_shown (prop "status" d) ≡ is_shown (prop "status" d') =
            ap shows (sym e ∙ f) in
          ground (arith, same, hidden, shown)),
      refl,
      ground (arith, hidden, e),
    )
  ]
]

module _ {parse : JsonParse} where
  Step-Follows : {s t : State} → Step parse s t → IsLive s → Follows parse s t
  unfolding on_timer
  Step-Follows {s} (timer p) h = inl (omega arith)
  Step-Follows {s} (answer r p) h = answer-Follows parse s r h p

  no_step : {s t : State} → s.timers + s.asked ≡ 0 → Step parse s t → ⊥
  no_step d (timer p) = omega arith
  no_step d (answer a p) = omega arith

  Reach-alive : {s : State} → Reach parse opened s → IsLive s ⊎ (s.timers + s.asked ≡ 0)
  Reach-alive here = inl refl
  Reach-alive (next r st) = elim (Reach-alive r) [
    | inl live ↦ elim (Step-Follows st live) [ inl l ↦ inl l | inr (a, e, t, dead) ↦ inr dead ]
    | inr dead ↦ absurd (no_step dead st)
  ]

  can_step : (s : State) → IsLive s → (t : State) × Step parse s t
  can_step s h = elim (which s h) [
    | inl p ↦ ((on_timer s).0, timer p)
    | inr p ↦ (on_status parse any_answer s, answer any_answer p)
  ]
    where
      which : (s : State) → IsLive s → (0 < s.timers) ⊎ (0 < s.asked)
      which s h = omega arith

      any_answer : Response
      any_answer = record {
        status_code = 200;
        content_type = none;
        csrf = none;
        authorization = none;
        body = "";
      }

-- The polling goes on until an answer cannot be shown, and no longer: after any step of the open page
-- there is one timer or one request under way, so that another step follows, or the step was an answer
-- that cannot be read or whose list throws when it is rendered, and no further step is possible.
pub polling_lives :
    {parse : JsonParse} {s t : State}
    → Reach parse opened s
    → Step parse s t
    → (IsLive t × ((u : State) × Step parse t u))
      ⊎ ((r : Response) × ¬ IsShown parse r
          × (t ≡ on_status parse r s)
          × ¬ ((u : State) × Step parse t u))
polling_lives {parse} {s} {t} r st = elim (Reach-alive r) [
  | inl live ↦ elim (Step-Follows st live) [
    | inl l ↦ inl (l, can_step t l)
    | inr (a, e, f, dead) ↦ inr (a, e, f, λ k. no_step dead k.1)
  ]
  | inr dead ↦ absurd (no_step dead st)
]
