-- ===== src/ModelPages/Errors.antt =====
-- The pages' own copies of `formatError`, beside that of webapp-admin/src/components/Utils.js.
use identity_vault.Common.{◌≡◌, refl, if◌then◌else◌, ◌&&◌, Bool-cases, inl, inr}
use identity_vault.Common.Value.{Value, truthy, prop}
use identity_vault.Messages.{Locale}
use identity_vault.Utils
use identity_vault.Utils.{translate, with_cause}
use identity_vault.KeypairPages.Add
use identity_vault.KeypairPages.Edit as KeypairEdit
use identity_vault.KeypairPages.Generate
use identity_vault.KeypairPages.Overview as KeypairOverview
use identity_vault.UserEdit
use identity_vault.UserList
use identity_vault.ModelPages.Overview
use identity_vault.ModelPages.Edit

-- The seven copies in the pages of keys, users and models give the text of Utils.js for every answer.
pub copies_agree :
    (lang : Locale) (d : Value)
    → (Add.format_error lang d ≡ Utils.format_error lang d)
      × (KeypairEdit.format_error lang d ≡ Utils.format_error lang d)
      × (Generate.format_error lang d ≡ Utils.format_error lang d)
      × (KeypairOverview.format_error lang d ≡ Utils.format_error lang d)
      × (UserEdit.format_error lang d ≡ Utils.format_error lang d)
      × (UserList.format_error lang d ≡ Utils.format_error lang d)
      × (Overview.format_error lang d ≡ Utils.format_error lang d)
unfolding Add.format_error KeypairEdit.format_error Generate.format_error
    KeypairOverview.format_error UserEdit.format_error UserList.format_error Overview.format_error
    Utils.format_error
copies_agree lang d = (refl, refl, refl, refl, refl, refl, refl)

-- The form of a model gives the text of Utils.js too, except for an answer with both a subcode and a
-- message: there it puts the message behind the other's text.
pub model_error :
    (lang : Locale) (d : Value)
    → Edit.format_error lang d ≡ (
        if truthy (prop "error_subcode" d) && truthy (prop "message" d)
        then with_cause (Utils.format_error lang d) (prop "message" d)
        else Utils.format_error lang d)
unfolding Edit.format_error Utils.format_error
model_error lang d = elim (Bool-cases (truthy (prop "error_subcode" d))) [
  | inl sub ↦
      rw sub (elim (Bool-cases (truthy (prop "message" d))) [
        | inl msg ↦ rw msg
        | inr no_msg ↦ rw no_msg
      ])
  | inr no_sub ↦ rw no_sub
]
