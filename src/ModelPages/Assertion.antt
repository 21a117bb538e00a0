-- ===== src/ModelPages/Assertion.antt =====
-- webapp-admin/src/components/ModelAssertion.js: the headers of a model's assertion. The object of the
-- headers is the model's own where it has one.
use identity_vault.Common.{
  String, Bool, Option, none, some, List, [], ◌∷◌, ◌++◌, map, filter, if◌then◌else◌,
}
use identity_vault.Common.Text.{is_word}
use identity_vault.Common.Number.{parse_int}
use identity_vault.Common.Value.{Value, null, number, str, object, end, truthy, same_value, prop}
use identity_vault.Http.{JsonParse, Response, parsed}
use identity_vault.Messages.{Locale}
use identity_vault.Utils.{Token, format_error, is_user_admin}
use identity_vault.Page.{
  ask, go_to, Result, set_prop, stopped, refused, accepted, outcome, message_or, list_of, Choice,
}
use identity_vault.Resources.Keypairs
use identity_vault.Resources.Models
use identity_vault.KeypairPages.Store.{key_choice}

-- `message` is unset by the constructor, and shown nowhere.
pub record State : Type 0 where
  pub error : Value
  pub keypairs : List Value
  pub assertion : Value
  pub message : Value

-- The constructor's object for a model: its own headers or none, with the model's identifier where it
-- lacks one.
unfoldable pub headers_of : Value → Value
unfolding prop set_prop
headers_of model =
    let assertion =
      if truthy (prop "assertion" model) then prop "assertion" model else object end in
    if truthy (prop "model_id" assertion)
    then assertion
    else elim (set_prop "model_id" (prop "id" model) assertion) [ none ↦ assertion | some a ↦ a ]

unfoldable pub opened : Value → Result State
unfolding headers_of Keypairs.list
opened model = (
  record { error = null; keypairs = []; assertion = headers_of model; message = null },
  ask Keypairs.list ∷ [],
)

-- The callback of `getKeypairs`: the keys of the model's brand.
unfoldable pub on_keypairs : JsonParse → Value → Response → State → State
unfolding parsed prop list_of same_value
on_keypairs parse model response s = elim (parsed parse response) [
  | none ↦ s
  | some data' ↦ elim (list_of "keypairs" data') [
    | none ↦ s
    | some ks ↦ record s {
      keypairs = filter (λ k. same_value (prop "AuthorityID" k) (prop "brand-id" model)) ks;
      message = message_or (str "") data';
    }
  ]
]

-- `assertion[k] = v` and `setState({assertion: assertion})`
unfoldable pub change : String → Value → State → State
unfolding set_prop
change k v s = elim (set_prop k v s.assertion) [ none ↦ s | some a ↦ record s { assertion = a } ]

unfoldable pub handle_change_private_key_model : String → State → State
unfolding change
handle_change_private_key_model value s = change "keypair_id" (number (parse_int value)) s

unfoldable pub handle_change_series : String → State → State
unfolding change
handle_change_series value s = change "series" (number (parse_int value)) s

unfoldable pub handle_change_architecture : String → State → State
unfolding change
handle_change_architecture value s = change "architecture" (str value) s

unfoldable pub handle_change_revision : String → State → State
unfolding change
handle_change_revision value s = change "revision" (number (parse_int value)) s

unfoldable pub handle_change_base : String → State → State
unfolding change
handle_change_base value s = change "base" (str value) s

unfoldable pub handle_change_classic : String → State → State
unfolding change
handle_change_classic value s = change "classic" (str value) s

-- The text that a field `classic` is left with.
unfoldable pub classic_of : String → String
unfolding is_word
classic_of value =
    if is_word value ""
    then ""
    else if is_word value "false"
    then "false"
    else if is_word value "no"
    then "false"
    else "true"

unfoldable pub handle_blur_classic : String → State → State
unfolding change classic_of
handle_blur_classic value s = change "classic" (str (classic_of value)) s

unfoldable pub handle_change_display_name : String → State → State
unfolding change
handle_change_display_name value s = change "display_name" (str value) s

unfoldable pub handle_change_gadget : String → State → State
unfolding change
handle_change_gadget value s = change "gadget" (str value) s

unfoldable pub handle_change_kernel : String → State → State
unfolding change
handle_change_kernel value s = change "kernel" (str value) s

unfoldable pub handle_change_store : String → State → State
unfolding change
handle_change_store value s = change "store" (str value) s

unfoldable pub handle_change_snaps : String → State → State
unfolding change
handle_change_snaps value s = change "required_snaps" (str value) s

-- `handleSave`: without permission the page is left, and the request is sent all the same.
unfoldable pub handle_save : Option Token → State → Result State
unfolding is_user_admin Models.assertion
handle_save token s = (
  s,
  (if is_user_admin token then [] else go_to "/models" ∷ [])
      ++ ask (Models.assertion s.assertion) ∷ [],
)

unfoldable pub on_saved : Locale → JsonParse → Response → State → Result State
unfolding outcome format_error
on_saved lang parse response s = elim (outcome parse response) [
  | stopped ↦ (s, [])
  | refused data' ↦ (record s { error = format_error lang data' }, [])
  | accepted data' ↦ (s, go_to "/models" ∷ [])
]

abbrev header_names : List String
header_names =
    "keypair_id" ∷ "series" ∷ "base" ∷ "classic" ∷ "display_name" ∷ "architecture" ∷ "revision"
    ∷ "gadget" ∷ "kernel" ∷ "store" ∷ "required_snaps" ∷ []

-- The form: the error, the value of each field in order, the choices of keys, and whether it has a
-- button to save.
unfoldable pub render : Locale → Option Token → State → Value × List Value × List Choice × Bool
unfolding is_user_admin key_choice prop
render lang token s = (
  s.error,
  map (λ name. prop name s.assertion) header_names,
  map (key_choice lang) s.keypairs,
  is_user_admin token,
)
