-- ===== src/Page.antt =====
-- What the pages' handlers and callbacks do besides changing their state, and the shapes that their
-- answers share.
pub mod Outcomes
pub mod Saving
use identity_vault.Common.{
  String, Bool, true, false, Option, none, some, List, [], ◌∷◌, if◌then◌else◌, not, ◌||◌, get_elem?,
}
use identity_vault.Common.Text.{split}
use identity_vault.Common.Value.{Value, undefined, str, object, put, truthy, prop, as_array}
use identity_vault.Http.{JsonParse, Response, readable, parsed, failed}
use identity_vault.Utils.{parse_response}
use identity_vault.Ajax.{Call}

-- A request of the resources, `window.location = url`, or a call of `props.onRefresh`.
pub data Effect : Type 0 where
  ask : Call → Effect
  go_to : String → Effect
  refresh : Value → Effect

-- The state that a handler leaves, and its effects in order.
abbrev pub Result {ℓ} : Type ℓ → Type ℓ
Result S = S × List Effect

-- `v[k] = w`; `none` where `v` is no object, an assignment that throws.
unfoldable pub set_prop : String → Value → Value → Option Value
unfolding put
set_prop k w (object fs) = some (object (put k w fs))
set_prop k w _ = none

-- `message = unset`, and the answer's where it reports no success.
abbrev pub message_or : Value → Value → Value
message_or unset data' = if truthy (prop "success" data') then unset else prop "message" data'

-- The list under a name of the answer; `none` where it is no array, which the array methods throw on.
unfoldable pub list_of : String → Value → Option (List Value)
unfolding prop
list_of k data' = as_array (prop k data')

-- How a callback reads its answer: an exception, an error to show, or a success, with the parsed body.
pub data Outcome : Type 0 where
  stopped : Outcome
  refused accepted : Value → Outcome

abbrev pub refused_if : Bool → Value → Outcome
refused_if true data' = refused data'
refused_if false data' = accepted data'

abbrev refused_value : Option Value → Outcome
refused_value none = stopped
refused_value (some data') = refused data'

-- `var data = JSON.parse(response.body); if (response.statusCode >= 300)`: the body is read in the
-- first branch only.
unfoldable pub outcome : JsonParse → Response → Outcome
outcome parse response = elim (parse response.body) [
  | none ↦ stopped
  | some data' ↦ if failed response then refused_value (readable data') else accepted data'
]

-- `if ((response.statusCode >= 300) || (!data.success))`
unfoldable pub outcome_of_success : JsonParse → Response → Outcome
unfolding parsed prop
outcome_of_success parse response = elim (parsed parse response) [
  | none ↦ stopped
  | some data' ↦ refused_if (failed response || not (truthy (prop "success" data'))) data'
]

-- What a page shows: the refusal for want of permission, an error in place of the form, or the page.
pub data Shown {ℓ} (A : Type ℓ) : Type ℓ where
  denied : Shown A
  failure : Value → Shown A
  shown : A → Shown A

-- `upload.target.result.split(',')[1]`
unfoldable pub uploaded : String → Value
unfolding split
uploaded result = elim (get_elem? (split b',' result) 1) [ none ↦ undefined | some s ↦ str s ]

-- `getAccounts()` of the pages: the selected account, if it has an identifier.
unfoldable pub selected_accounts : Value → List Value
unfolding prop
selected_accounts account = if truthy (prop "ID" account) then account ∷ [] else []

-- The choices of a list of keys: identifier and text.
abbrev pub Choice : Type 0
Choice = Value × String

abbrev refused_unless : Option Value → Outcome
refused_unless none = stopped
refused_unless (some data') = refused_if (not (truthy (prop "success" data'))) data'

abbrev readable_part : Option Value → Option Value
readable_part none = none
readable_part (some v) = readable v

-- `var data = parseResponse(response); if (!data.success)`
unfoldable pub outcome_of_response : JsonParse → Response → Outcome
unfolding parse_response prop
outcome_of_response parse response = refused_unless (readable_part (parse_response parse response))
