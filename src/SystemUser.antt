-- ===== src/SystemUser.antt =====
-- webapp-admin/src/components/SystemUserForm.js: the form that asks for the assertion of a system user.
-- The dates of the library moment are a parameter, with the operations that the form uses.
pub mod Email
pub mod Submission
use identity_vault.Common.{
  ℕ, zero, suc, String, Bool, true, false, not, ◌&&◌, ◌||◌, Option, none, some, List, [], ◌∷◌, map,
  if◌then◌else◌, get_elem?,
}
use identity_vault.Common.Text.{◌<>◌, split}
use identity_vault.Common.Number.{Number, pos, nan}
use identity_vault.Common.Value.{
  Value, undefined, null, number, str, object, fields, truthy, same_value, prop, parse_value,
  to_text,
}
use identity_vault.Http.{JsonParse, Response, parsed}
use identity_vault.Utils.{Token, is_user_standard}
use identity_vault.Page.{Effect, ask, Result}
use identity_vault.Resources.Assertions
use identity_vault.SystemUser.Email.{is_email}

-- `date.hours()`, `date.hours(h)` and their like, and `date.format(f)`. A setter changes the object;
-- no date is shared, so that the new one stands in its place.
pub record Moment (M : Type 0) : Type 0 where
  pub hours : M → Value
  pub minutes : M → Value
  pub seconds : M → Value
  pub set_hours : Value → M → M
  pub set_minutes : Value → M → M
  pub set_seconds : Value → M → M
  pub add_year : M → M
  pub format : String → M → String

pub record State (M : Type 0) : Type 0 where
  pub email : String
  pub username : String
  pub password : String
  pub name : String
  pub model : Number
  pub since : M
  pub until : M
  pub message : Value
  pub assertion : Value

module _ {M : Type 0} (moment : Moment M) where
  -- The constructor, at the time `now`.
  abbrev pub initial : M → State M
  initial now = record {
    email = "";
    username = "";
    password = "";
    name = "";
    model = pos 0;
    since = now;
    until = moment.add_year now;
    message = str "";
    assertion = null;
  }

  -- The hour, the minute and the second of the old date, set in the new one. (A date that is cleared is
  -- null, and throws.)
  abbrev pub with_time_of : M → M → M
  with_time_of old date =
      moment.set_seconds (moment.seconds old)
        (moment.set_minutes (moment.minutes old) (moment.set_hours (moment.hours old) date))

  abbrev pub part : ℕ → String → Value
  part i value = elim (get_elem? (split b':' value) i) [ none ↦ undefined | some s ↦ str s ]

  -- The time of an input, set in the date; without its second part the setter is given undefined.
  abbrev pub at_time : String → M → M
  at_time value date =
      moment.set_seconds (number (pos 0))
        (moment.set_minutes (part 1 value) (moment.set_hours (part 0 value) date))

  unfoldable pub handle_change_since_date : M → State M → State M
  handle_change_since_date date s = record s { since = with_time_of s.since date }

  unfoldable pub handle_change_since_time : String → State M → State M
  unfolding split
  handle_change_since_time value s = record s { since = at_time value s.since }

  unfoldable pub handle_change_until_date : M → State M → State M
  handle_change_until_date date s = record s { until = with_time_of s.until date }

  unfoldable pub handle_change_until_time : String → State M → State M
  unfolding split
  handle_change_until_time value s = record s { until = at_time value s.until }

  -- The object that `onSubmit` sends.
  unfoldable pub form_of : State M → Value
  form_of s = object (
      fields (
        ("email", str s.email)
        ∷ ("username", str s.username)
        ∷ ("password", str s.password)
        ∷ ("name", str s.name)
        ∷ ("model", number s.model)
        ∷ ("since", str (moment.format "YYYY-MM-DDTHH:mm:ss" s.since <> "Z"))
        ∷ ("until", str (moment.format "YYYY-MM-DDTHH:mm:ss" s.until <> "Z"))
        ∷ []))

module _ {M : Type 0} where
  unfoldable pub on_show_form : State M → State M
  on_show_form s = record s { assertion = null }

  unfoldable pub handle_change_email : String → State M → State M
  handle_change_email value s = record s { email = value }

  unfoldable pub handle_change_username : String → State M → State M
  handle_change_username value s = record s { username = value }

  unfoldable pub handle_change_password : String → State M → State M
  handle_change_password value s = record s { password = value }

  unfoldable pub handle_change_name : String → State M → State M
  handle_change_name value s = record s { name = value }

  unfoldable pub handle_change_model : String → State M → State M
  unfolding parse_value
  handle_change_model value s = record s { model = parse_value (str value) }

  -- `validate(form)`: the state with its message, and whether the form is sent.
  unfoldable pub validate : Value → State M → State M × Bool
  unfolding prop same_value to_text is_email
  validate form s =
      if not (truthy (prop "email" form))
        || not (truthy (prop "username" form))
        || not (truthy (prop "password" form))
        || not (truthy (prop "name" form))
        || not (truthy (prop "model" form))
        || same_value (prop "model" form) (number (pos 0))
      then (record s { message = str "All the fields must be entered" }, false)
      else if not (is_email (to_text (prop "email" form)))
      then (record s { message = str "The email is not valid" }, false)
      else (record s { message = str "" }, true)

  -- The callback of `submitAssertion`.
  unfoldable pub on_assertion : JsonParse → Response → State M → State M
  unfolding parsed prop
  on_assertion parse response s = elim (parsed parse response) [
    | none ↦ s
    | some data' ↦
        if truthy (prop "success" data')
        then record s { assertion = prop "assertion" data'; message = null }
        else record s { message = prop "message" data' }
  ]

unfoldable pub on_submit : {M : Type 0} → Moment M → State M → Result (State M)
unfolding form_of validate Assertions.create
on_submit moment s =
    let (checked, valid) = validate (form_of moment s) s in
    (checked, if valid then ask (Assertions.create (form_of moment s)) ∷ [] else [])

-- `downloadAssertion`, with the browser's encoding of a text.
unfoldable pub download_assertion : {M : Type 0} → (String → String) → State M → String
unfolding to_text
download_assertion encode s =
    "data:application/octet-stream;charset=utf-8," <> encode (to_text s.assertion)

-- What `render` shows: no permissions, the assertion, or the form with its message and the models.
pub data View : Type 0 where
  denied : View
  made : Value → View
  form : Value → List (Value × String) → View

abbrev choice : Value → Value × String
choice m = (prop "id" m, to_text (prop "brand-id" m) <> " " <> to_text (prop "model" m))

unfoldable pub render : {M : Type 0} → Option Token → List Value → State M → View
unfolding is_user_standard prop to_text
render token models s =
    if is_user_standard token
    then if truthy s.assertion then made s.assertion else form s.message (map choice models)
    else denied
