-- ===== src/Examples/Forms.antt =====
-- The forms of users, keys and models at concrete inputs.
use mathlib.Core.Bool.{xor}
use identity_vault.Common.{String, ◌≡◌, refl, none, some, List, [], ◌∷◌, arith, ◌&&◌, if◌then◌else◌}
use identity_vault.Common.Value.{Value, null, str, object, array, fields, items, truthy, prop}
use identity_vault.Http.{Response, JsonParse}
use identity_vault.Messages.{en}
use identity_vault.Utils
use identity_vault.Utils.{with_cause}
use identity_vault.UserEdit
use identity_vault.UserEdit.{is_assigned, build_request_data}
use identity_vault.UserEdit.Assignment.{texts, HasAccounts, click_all, is_flipped, click_all_lem}
use identity_vault.KeypairPages.Status
use identity_vault.KeypairPages.Status.{on_status, on_timer, Reach, here, next, answer, Reach-one}
use identity_vault.KeypairPages.Store
use identity_vault.KeypairPages.Store.{
  handle_change_name, handle_change_email, handle_change_password, handle_change_otp,
}
use identity_vault.KeypairPages.Naming.{typed_name_is_lost, read, Registers}
use identity_vault.ModelPages.Edit
use identity_vault.ModelPages.Errors.{model_error}

abbrev assigned_form : UserEdit.State
assigned_form = record UserEdit.initial { assigned_accounts = texts ("alder" ∷ "beech" ∷ []) }

assigned_twice : HasAccounts assigned_form ("alder" ∷ "beech" ∷ [])
unfolding is_assigned
assigned_twice = record { listed = refl; unique = (refl, (refl, tt)) }

click_all_example :
    (after : List String) × HasAccounts (click_all ("beech" ∷ "cedar" ∷ []) assigned_form) after
    × ((b : String)
        → is_assigned (str b) (texts after)
          ≡ xor
              (is_assigned (str b) (texts ("alder" ∷ "beech" ∷ [])))
              (is_flipped b ("beech" ∷ "cedar" ∷ [])))
    × (prop "accounts" (build_request_data (click_all ("beech" ∷ "cedar" ∷ []) assigned_form))
        ≡ array (items (texts after)))
click_all_example =
    click_all_lem ("beech" ∷ "cedar" ∷ []) assigned_form ("alder" ∷ "beech" ∷ []) assigned_twice

abbrev parse_status : JsonParse
parse_status s = some (object (fields (("status", str "") ∷ [])))

abbrev status_answer : Response
status_answer = record {
  status_code = 200;
  content_type = some "application/json";
  csrf = none;
  authorization = none;
  body = "";
}

-- The first answer sets a timer.
answered : Reach parse_status Status.opened (on_status parse_status status_answer Status.opened)
answered = next here (answer status_answer (omega arith))

typed_name_example :
    let fs = fields (("key-name", str "old") ∷ []) in
    let s : Store.State = record { keypair = object fs; error = null } in
    let k = read (object fs) in
    Registers (handle_change_name "new" s) k
    × Registers (handle_change_email "new" s) (record k { email = str "new" })
    × Registers (handle_change_password "new" s) (record k { password = str "new" })
    × Registers (handle_change_otp "new" s) (record k { otp = str "new" })
typed_name_example = typed_name_is_lost (fields (("key-name", str "old") ∷ [])) null "new"

abbrev refusal : Value
refusal = object (
    fields (
      ("error_code", str "error-auth")
      ∷ ("error_subcode", str "error-model-json")
      ∷ ("message", str "details")
      ∷ []))

model_error_example : Edit.format_error en refusal ≡ (
    if truthy (prop "error_subcode" refusal) && truthy (prop "message" refusal)
    then with_cause (Utils.format_error en refusal) (prop "message" refusal)
    else Utils.format_error en refusal)
model_error_example = model_error en refusal
