-- ===== src/Examples/Saving.antt =====
-- The forms at a concrete answer.
use identity_vault.Common.{false, [], ◌∷◌, some, none}
use identity_vault.Common.Number.{pos}
use identity_vault.Common.Value.{Value, null, str, flag, object, fields, array, items}
use identity_vault.Http.{JsonParse, Response}
use identity_vault.Messages.{en}
use identity_vault.Utils.{parse_response}
use identity_vault.Utils
use identity_vault.Page.Outcomes.{IsDone, IsDoneWell, IsSuccess, IsGuarded}
use identity_vault.Page.Saving.{Forms, saves-IsGuarded}
use identity_vault.AccountPages.Edit as AccountEdit
use identity_vault.AccountPages.KeyUpload
use identity_vault.AccountPages.Upload
use identity_vault.KeypairPages.Add
use identity_vault.KeypairPages.Edit as KeypairEdit
use identity_vault.KeypairPages.Generate
use identity_vault.KeypairPages.Store
use identity_vault.ModelPages.Assertion
use identity_vault.ModelPages.Edit as ModelEdit
use identity_vault.UserEdit

abbrev refusal : Response
refusal = record {
  status_code = 400;
  content_type = some "application/json";
  csrf = none;
  authorization = none;
  body = "{}";
}

abbrev parse_refusal : JsonParse
parse_refusal s =
    some (object (fields (("success", flag false) ∷ ("error_code", str "error-auth") ∷ [])))

abbrev nothing : Value
nothing = object (fields [])

abbrev forms : Forms
forms = record {
  user = record {
    title = str "user";
    user = nothing;
    error = null;
    hide_form = false;
    assigned_accounts = [];
    available_accounts = [];
  };
  model = record { title = str "model"; model = nothing; error = null; hide_form = false };
  headers = record { error = null; keypairs = []; assertion = nothing; message = str "" };
  key_import = record {
    name = str "k";
    key = str "";
    error = null;
    authority_id = str "canonical";
  };
  key_generation = record { key_name = str "k"; error = null; authority_id = str "canonical" };
  key = record { keypair = nothing; error = null; hide_form = false };
  key_registration = record { keypair = nothing; error = null };
  account = record { account = nothing; error = null };
  account_upload = record { assertion = str ""; error = null };
  key_upload = record {
    keypairs = array (items []);
    keypair_id = pos 1;
    assertion = str "";
    error = null;
    message = str "";
  };
}

saves-IsGuarded_example :
    IsGuarded
      (IsDone parse_refusal refusal)
      (parse_refusal refusal.body)
      (UserEdit.on_saved en parse_refusal refusal forms.user)
      forms.user
      (λ d. record (forms.user) { error = UserEdit.format_error en d })
      "/users"
    × IsGuarded
        (IsDone parse_refusal refusal)
        (parse_refusal refusal.body)
        (ModelEdit.on_saved en parse_refusal refusal forms.model)
        forms.model
        (λ d. record (forms.model) { error = ModelEdit.format_error en d })
        "/models"
    × IsGuarded
        (IsDone parse_refusal refusal)
        (parse_refusal refusal.body)
        (Assertion.on_saved en parse_refusal refusal forms.headers)
        forms.headers
        (λ d. record (forms.headers) { error = Utils.format_error en d })
        "/models"
    × IsGuarded
        (IsDoneWell parse_refusal refusal)
        (parse_refusal refusal.body)
        (Add.on_saved en parse_refusal refusal forms.key_import)
        forms.key_import
        (λ d. record (forms.key_import) { error = Add.format_error en d })
        "/signing-keys"
    × IsGuarded
        (IsDoneWell parse_refusal refusal)
        (parse_refusal refusal.body)
        (Generate.on_saved en parse_refusal refusal forms.key_generation)
        forms.key_generation
        (λ d. record (forms.key_generation) { error = Generate.format_error en d })
        "/signing-keys"
    × IsGuarded
        (IsDoneWell parse_refusal refusal)
        (parse_refusal refusal.body)
        (KeypairEdit.on_saved en parse_refusal refusal forms.key)
        forms.key
        (λ d. record (forms.key) { error = KeypairEdit.format_error en d })
        "/signing-keys"
    × IsGuarded
        (IsDoneWell parse_refusal refusal)
        (parse_refusal refusal.body)
        (Store.on_saved en parse_refusal refusal forms.key_registration)
        forms.key_registration
        (λ d. record (forms.key_registration) { error = Utils.format_error en d })
        "/signing-keys"
    × IsGuarded
        (IsSuccess parse_refusal refusal)
        (parse_response parse_refusal refusal)
        (AccountEdit.on_saved en parse_refusal refusal forms.account)
        forms.account
        (λ d. record (forms.account) { error = Utils.format_error en d })
        "/accounts"
    × IsGuarded
        (IsSuccess parse_refusal refusal)
        (parse_response parse_refusal refusal)
        (Upload.on_saved en parse_refusal refusal forms.account_upload)
        forms.account_upload
        (λ d. record (forms.account_upload) { error = Utils.format_error en d })
        "/accounts"
    × IsGuarded
        (IsSuccess parse_refusal refusal)
        (parse_response parse_refusal refusal)
        (KeyUpload.on_saved en parse_refusal refusal forms.key_upload)
        forms.key_upload
        (λ d. record (forms.key_upload) { error = Utils.format_error en d })
        "/accounts"
saves-IsGuarded_example = saves-IsGuarded en parse_refusal refusal forms
