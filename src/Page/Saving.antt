-- ===== src/Page/Saving.antt =====
-- The answers to the requests that save the forms of webapp-admin/src/components: when a page is left
-- for another, and what becomes of the form when it is not.
use identity_vault.Http.{JsonParse, Response}
use identity_vault.Messages.{Locale}
use identity_vault.Utils.{parse_response}
use identity_vault.Utils
use identity_vault.AccountPages.Edit as AccountEdit
use identity_vault.AccountPages.KeyUpload
use identity_vault.AccountPages.Upload
use identity_vault.KeypairPages.Add
use identity_vault.KeypairPages.Edit as KeypairEdit
use identity_vault.KeypairPages.Generate
use identity_vault.KeypairPages.Store
use identity_vault.ModelPages.Assertion
use identity_vault.ModelPages.Edit as ModelEdit
use identity_vault.UserEdit
use identity_vault.Page.Outcomes.{
  IsDone, IsDoneWell, IsSuccess, IsGuarded, settled-IsGuarded, outcome-Accepts,
  outcome_of_success-Accepts, outcome_of_response-Accepts,
}

-- The states of the ten forms.
pub record Forms : Type 0 where
  pub user : UserEdit.State
  pub model : ModelEdit.State
  pub headers : Assertion.State
  pub key_import : Add.State
  pub key_generation : Generate.State
  pub key : KeypairEdit.State
  pub key_registration : Store.State
  pub account : AccountEdit.State
  pub account_upload : Upload.State
  pub key_upload : KeyUpload.State

-- A form is left for the list of its page only by a good answer, and always by one: three forms want
-- JSON with a status below 300, four a reported success besides, and three a reported success whatever
-- the status. After any other answer the form stays: as it is, where
-- the answer cannot be read, and else with nothing changed but the error, the text of the answer's.
pub saves-IsGuarded :
    (lang : Locale) (parse : JsonParse) (r : Response) (f : Forms)
    → IsGuarded
        (IsDone parse r)
        (parse r.body)
        (UserEdit.on_saved lang parse r f.user)
        f.user
        (λ d. record (f.user) { error = UserEdit.format_error lang d })
        "/users"
      × IsGuarded
          (IsDone parse r)
          (parse r.body)
          (ModelEdit.on_saved lang parse r f.model)
          f.model
          (λ d. record (f.model) { error = ModelEdit.format_error lang d })
          "/models"
      × IsGuarded
          (IsDone parse r)
          (parse r.body)
          (Assertion.on_saved lang parse r f.headers)
          f.headers
          (λ d. record (f.headers) { error = Utils.format_error lang d })
          "/models"
      × IsGuarded
          (IsDoneWell parse r)
          (parse r.body)
          (Add.on_saved lang parse r f.key_import)
          f.key_import
          (λ d. record (f.key_import) { error = Add.format_error lang d })
          "/signing-keys"
      × IsGuarded
          (IsDoneWell parse r)
          (parse r.body)
          (Generate.on_saved lang parse r f.key_generation)
          f.key_generation
          (λ d. record (f.key_generation) { error = Generate.format_error lang d })
          "/signing-keys"
      × IsGuarded
          (IsDoneWell parse r)
          (parse r.body)
          (KeypairEdit.on_saved lang parse r f.key)
          f.key
          (λ d. record (f.key) { error = KeypairEdit.format_error lang d })
          "/signing-keys"
      × IsGuarded
          (IsDoneWell parse r)
          (parse r.body)
          (Store.on_saved lang parse r f.key_registration)
          f.key_registration
          (λ d. record (f.key_registration) { error = Utils.format_error lang d })
          "/signing-keys"
      × IsGuarded
          (IsSuccess parse r)
          (parse_response parse r)
          (AccountEdit.on_saved lang parse r f.account)
          f.account
          (λ d. record (f.account) { error = Utils.format_error lang d })
          "/accounts"
      × IsGuarded
          (IsSuccess parse r)
          (parse_response parse r)
          (Upload.on_saved lang parse r f.account_upload)
          f.account_upload
          (λ d. record (f.account_upload) { error = Utils.format_error lang d })
          "/accounts"
      × IsGuarded
          (IsSuccess parse r)
          (parse_response parse r)
          (KeyUpload.on_saved lang parse r f.key_upload)
          f.key_upload
          (λ d. record (f.key_upload) { error = Utils.format_error lang d })
          "/accounts"
unfolding UserEdit.on_saved ModelEdit.on_saved Assertion.on_saved Add.on_saved Generate.on_saved
    KeypairEdit.on_saved Store.on_saved AccountEdit.on_saved Upload.on_saved KeyUpload.on_saved
saves-IsGuarded lang parse r f =
    let done = outcome-Accepts parse r in
    let well = outcome_of_success-Accepts parse r in
    let success = outcome_of_response-Accepts parse r in
    (
      settled-IsGuarded (IsDone parse r) (parse r.body) _ f.user
          (λ d. record (f.user) { error = UserEdit.format_error lang d }) "/users" done,
      settled-IsGuarded (IsDone parse r) (parse r.body) _ f.model
          (λ d. record (f.model) { error = ModelEdit.format_error lang d }) "/models" done,
      settled-IsGuarded (IsDone parse r) (parse r.body) _ f.headers
          (λ d. record (f.headers) { error = Utils.format_error lang d }) "/models" done,
      settled-IsGuarded (IsDoneWell parse r) (parse r.body) _ f.key_import
          (λ d. record (f.key_import) { error = Add.format_error lang d }) "/signing-keys" well,
      settled-IsGuarded (IsDoneWell parse r) (parse r.body) _ f.key_generation
          (λ d. record (f.key_generation) { error = Generate.format_error lang d }) "/signing-keys"
          well,
      settled-IsGuarded (IsDoneWell parse r) (parse r.body) _ f.key
          (λ d. record (f.key) { error = KeypairEdit.format_error lang d }) "/signing-keys" well,
      settled-IsGuarded (IsDoneWell parse r) (parse r.body) _ f.key_registration
          (λ d. record (f.key_registration) { error = Utils.format_error lang d }) "/signing-keys"
          well,
      settled-IsGuarded (IsSuccess parse r) (parse_response parse r) _ f.account
          (λ d. record (f.account) { error = Utils.format_error lang d }) "/accounts" success,
      settled-IsGuarded (IsSuccess parse r) (parse_response parse r) _ f.account_upload
          (λ d. record (f.account_upload) { error = Utils.format_error lang d }) "/accounts"
          success,
      settled-IsGuarded (IsSuccess parse r) (parse_response parse r) _ f.key_upload
          (λ d. record (f.key_upload) { error = Utils.format_error lang d }) "/accounts" success,
    )
