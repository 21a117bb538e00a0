-- ===== src/KeypairPages/Status.antt =====
-- webapp-admin/src/components/KeypairStatus.js: the progress of the generated keys, asked for again
-- and again. The timer is an event of its own.
use identity_vault.Common.{
  ℕ, ◌+◌, ◌-◌, ◌≤◌, ◌<◌, arith, Bool, true, false, not, ◌==◌, str_eq, Option, none, some, List, [],
  ◌∷◌, map,
}
use identity_vault.Common.Value.{
  Value, undefined, null, number, flag, object, array, Items, nil, cons, str, prop, get, as_array,
}
use identity_vault.Common.Number.{pos, Number, parse_int}
use identity_vault.Http.{JsonParse, Response, parsed}
use identity_vault.Messages.{Locale}
use identity_vault.Utils.{translate}
use identity_vault.Page.{ask, Result, message_or}
use identity_vault.Resources.Keypairs

-- `timers` counts the timers that are set, `asked` the requests without an answer.
pub record State : Type 0 where
  pub keypairs : Value
  pub message : Value
  pub timers : ℕ
  pub asked : ℕ

-- The constructor, which asks at once.
abbrev pub opened : State
opened = record { keypairs = array nil; message = str ""; timers = 0; asked = 1 }

-- Its request.
unfoldable pub mounted : Result State
unfolding Keypairs.status
mounted = (opened, ask Keypairs.status ∷ [])

-- `renderRow` reads the properties of each element, which throws for one that is missing.
abbrev all_readable : Items → Bool
all_readable nil = true
all_readable (cons undefined vs) = false
all_readable (cons null vs) = false
all_readable (cons v vs) = all_readable vs

-- `length > 0` of an object of JSON, whose length may be anything.
abbrev is_positive : Number → Bool
is_positive (pos n) = not (n == 0)
is_positive n = false

abbrev has_length : Value → Bool
has_length (number (pos n)) = not (n == 0)
has_length (flag b) = b
has_length (str s) = is_positive (parse_int s)
has_length v = false

-- Whether `render` shows the list without an exception: it reads `length`, and goes through a list that
-- is not empty; a text and an object with a length have no `map`.
unfoldable pub is_shown : Value → Bool
unfolding get
is_shown undefined = false
is_shown null = false
is_shown (str s) = str_eq s ""
is_shown (object fs) = not (has_length (get "length" fs))
is_shown (array vs) = all_readable vs
is_shown v = true

-- What the callback makes of an answer that has been read. It is no handler of React, so that `setState`
-- renders at once; an exception there takes the page down, and `done` throws it on and sets no timer.
abbrev shown_or_not : Bool → State → State
shown_or_not true s = record s { timers = s.timers + 1 }
shown_or_not false s = s

-- The callback, and `done` behind it, which sets the next timer; an exception in the callback is
-- thrown on by `done` and sets none.
unfoldable pub on_status : JsonParse → Response → State → State
unfolding parsed prop is_shown
on_status parse response s = elim (parsed parse response) [
  | none ↦ record s { asked = s.asked - 1 }
  | some data' ↦ shown_or_not (is_shown (prop "status" data')) (record s {
    keypairs = prop "status" data';
    message = message_or (str "") data';
    asked = s.asked - 1;
  })
]

-- A timer runs out, and `getKeypairs` asks again.
unfoldable pub on_timer : State → Result State
unfolding Keypairs.status
on_timer s = (record s { timers = s.timers - 1; asked = s.asked + 1 }, ask Keypairs.status ∷ [])

-- The cells of a row: authority, name and translated status.
unfoldable pub render_row : Locale → Value → Value × Value × Value
unfolding prop translate
render_row lang keypr =
    (prop "authority-id" keypr, prop "key-name" keypr, translate lang (prop "status" keypr))

unfoldable pub render : Locale → State → Option (List (Value × Value × Value))
unfolding render_row
render lang s = elim (as_array s.keypairs) [
  | none ↦ none
  | some ks ↦ some (map (render_row lang) ks)
]

-- What happens to the page: a timer that is set runs out, or a request is answered.
pub data Step (parse : JsonParse) (s : State) : State → Type 0 where
  timer : 0 < s.timers → Step parse s (on_timer s).0
  answer : (r : Response) → 0 < s.asked → Step parse s (on_status parse r s)

pub data Reach (parse : JsonParse) (s : State) : State → Type 0 where
  here : Reach parse s s
  next : {t u : State} → Reach parse s t → Step parse t u → Reach parse s u

Step-one :
    {parse : JsonParse} {s t : State}
    → Step parse s t
    → s.timers + s.asked ≤ 1
    → t.timers + t.asked ≤ 1
unfolding on_timer on_status
Step-one (timer p) h = omega arith
Step-one (answer r p) h = ground arith

-- However long the page is open, there is at most one timer or one request under way: the polling
-- never doubles.
pub Reach-one : {parse : JsonParse} {s : State} → Reach parse opened s → s.timers + s.asked ≤ 1
Reach-one here = omega arith
Reach-one (next r st) = Step-one st (Reach-one r)
