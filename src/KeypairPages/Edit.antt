-- ===== src/KeypairPages/Edit.antt =====
-- webapp-admin/src/components/KeypairEdit.js: the form of one signing key.
use identity_vault.Common.{String, Bool, true, false, Option, none, some, [], ◌∷◌, if◌then◌else◌}
use identity_vault.Common.Value.{Value, null, str, object, end, truthy, prop}
use identity_vault.Http.{JsonParse, Response, parsed, failed}
use identity_vault.Messages.{Locale}
use identity_vault.Utils.{Token, translate, with_cause, is_user_admin}
use identity_vault.Page.{
  ask, go_to, Result, set_prop, stopped, refused, accepted, outcome_of_success, Shown, denied,
  failure, shown,
}
use identity_vault.Resources.Keypairs

pub record State : Type 0 where
  pub keypair : Value
  pub error : Value
  pub hide_form : Bool

-- The constructor, with the identifier of the properties; `hideForm` is unset.
unfoldable pub opened : Value → Result State
unfolding Keypairs.get
opened id =
    (record { keypair = object end; error = null; hide_form = false }, ask (Keypairs.get id) ∷ [])

unfoldable pub format_error : Locale → Value → Value
unfolding prop translate
format_error lang data' =
    let message = translate lang (prop "error_code" data') in
    if truthy (prop "error_subcode" data')
    then with_cause message (translate lang (prop "error_subcode" data'))
    else if truthy (prop "message" data')
    then with_cause message (prop "message" data')
    else message

unfoldable pub on_keypair : Locale → JsonParse → Response → State → State
unfolding parsed prop format_error
on_keypair lang parse response s = elim (parsed parse response) [
  | none ↦ s
  | some data' ↦
      if failed response
      then record s { error = format_error lang data'; hide_form = true }
      else record s { keypair = prop "keypair" data'; hide_form = false }
]

unfoldable pub handle_change_key_name : String → State → State
unfolding set_prop
handle_change_key_name value s = elim (set_prop "KeyName" (str value) s.keypair) [
  | none ↦ s
  | some k ↦ record s { keypair = k }
]

unfoldable pub handle_save_click : State → Result State
unfolding Keypairs.update
handle_save_click s = (s, ask (Keypairs.update s.keypair) ∷ [])

unfoldable pub on_saved : Locale → JsonParse → Response → State → Result State
unfolding outcome_of_success format_error
on_saved lang parse response s = elim (outcome_of_success parse response) [
  | stopped ↦ (s, [])
  | refused data' ↦ (record s { error = format_error lang data' }, [])
  | accepted data' ↦ (s, go_to "/signing-keys" ∷ [])
]

-- The fields of the form; the authority cannot be changed.
pub record Form : Type 0 where
  pub error : Value
  pub name : Value
  pub authority_id : Value

unfoldable pub render : Option Token → State → Shown Form
unfolding is_user_admin prop
render token s =
    if is_user_admin token
    then if s.hide_form
      then failure s.error
      else shown (record {
        error = s.error;
        name = prop "KeyName" s.keypair;
        authority_id = prop "AuthorityID" s.keypair;
      })
    else denied
