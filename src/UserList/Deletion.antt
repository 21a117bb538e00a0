-- ===== src/UserList/Deletion.antt =====
-- Deletions in webapp-admin/src/components/UserList.js and ModelList.js.
use identity_vault.Common.{
  Bool, true, false, ◌≡◌, refl, ap, ◌∙◌, ◌⊎◌, inl, inr, some, List, [], ◌∷◌, filter, IsIn,
  Bool-cases, if◌then◌else◌,
}
use identity_vault.Common.Value.{Value, prop, same_value, as_array, to_text}
use identity_vault.Common.Text.{◌<>◌}
use identity_vault.Page.{ask}
use identity_vault.Resources.Users
use identity_vault.Resources.Models
use identity_vault.UserList
use identity_vault.UserList.{State, handle_delete_user}
use identity_vault.ModelPages.Overview

-- The test fails for all of the list, or the first item that it holds for is in the list.
first_asked :
    (f : Value → Bool) (xs : List Value)
    → ((filter f xs ≡ []) × ((u : Value) → IsIn u xs → f u ≡ false))
      ⊎ ((u : Value) × (rest : List Value) × (filter f xs ≡ u ∷ rest) × IsIn u xs × (f u ≡ true))
first_asked f [] = inl (refl, λ u h. elim h [ ])
first_asked f (x ∷ xs) = elim (Bool-cases (f x)) [
  | inl asked ↦ inr (x, filter f xs, rw asked refl, inl refl, asked)
  | inr other ↦ elim (first_asked f xs) [
    | inl (nobody, all_other) ↦
        inl (
          rw other nobody,
          λ u h. elim h [ inl e ↦ ap f e ∙ other | inr there ↦ all_other u there ],
        )
    | inr (u, rest, e, there, asked) ↦ inr (u, rest, rw other e, inr there, asked)
  ]
]

user_row :
    (confirm_delete u : Value) (b : Bool)
    → same_value (prop "ID" u) confirm_delete ≡ b
    → UserList.render_actions confirm_delete u ≡ (
        if b
        then UserList.confirm
        else UserList.edit_link ("/users/" <> to_text (prop "ID" u) <> "/edit"))
unfolding UserList.render_actions
user_row confirm_delete u true e = rw e refl
user_row confirm_delete u false e = rw e refl

model_row :
    (confirm_delete m : Value) (b : Bool)
    → same_value (prop "id" m) confirm_delete ≡ b
    → Overview.render_actions confirm_delete m ≡ (
        if b
        then Overview.confirm
        else Overview.edit_link ("/models/" <> to_text (prop "id" m) <> "/edit"))
unfolding Overview.render_actions
model_row confirm_delete m true e = rw e refl
model_row confirm_delete m false e = rw e refl

-- The deletion of a user asks for nothing, where every row has its link to the form, or deletes one
-- user, who is in the list and whose row shows the question; the state stays as it is.
pub delete_user_row :
    (s : State) (users : List Value)
    → as_array s.users ≡ some users
    → ((handle_delete_user s).0 ≡ s)
      × ((((handle_delete_user s).1 ≡ [])
            × ((u : Value)
                → IsIn u users
                → UserList.render_actions s.confirm_delete u
                  ≡ UserList.edit_link ("/users/" <> to_text (prop "ID" u) <> "/edit")))
          ⊎ ((u : Value) × ((handle_delete_user s).1 ≡ ask (Users.delete u) ∷ [])
              × IsIn u users
              × (UserList.render_actions s.confirm_delete u ≡ UserList.confirm)))
unfolding handle_delete_user
delete_user_row s users e = (
  refl,
  elim (first_asked (λ u. same_value (prop "ID" u) s.confirm_delete) users) [
    | inl (nobody, other) ↦
        inl (rw (e, nobody) refl, λ u h. user_row s.confirm_delete u false (other u h))
    | inr (u, rest, f, there, asked) ↦
        inr (u, rw (e, f) refl, there, user_row s.confirm_delete u true asked)
  ],
)

-- The deletion of a model does the same over the models of the properties.
pub delete_model_row :
    (s : Overview.State) (models : List Value)
    → ((Overview.handle_delete_model models s).0 ≡ s)
      × ((((Overview.handle_delete_model models s).1 ≡ [])
            × ((m : Value)
                → IsIn m models
                → Overview.render_actions s.confirm_delete m
                  ≡ Overview.edit_link ("/models/" <> to_text (prop "id" m) <> "/edit")))
          ⊎ ((m : Value) × ((Overview.handle_delete_model models s).1 ≡ ask (Models.delete m) ∷ [])
              × IsIn m models
              × (Overview.render_actions s.confirm_delete m ≡ Overview.confirm)))
unfolding Overview.handle_delete_model
delete_model_row s models = (
  refl,
  elim (first_asked (λ m. same_value (prop "id" m) s.confirm_delete) models) [
    | inl (nobody, other) ↦
        inl (rw nobody refl, λ m h. model_row s.confirm_delete m false (other m h))
    | inr (m, rest, f, there, asked) ↦
        inr (m, rw f refl, there, model_row s.confirm_delete m true asked)
  ],
)
