-- ===== src/Server/Users/Told.antt =====
-- What the form of a user, webapp-admin/src/components/UserEdit.js, makes of the answers of service/user,
-- and what has become of the tables by then.
use identity_vault.Common.{ℕ, String, false, ◌≡◌, refl, sym, subst, ◌⊎◌, inl, inr, Bool-cases}
use identity_vault.Http.{JsonParse}
use identity_vault.Messages.{Locale}
use identity_vault.UserEdit
use identity_vault.UserEdit.{on_saved}
use identity_vault.Datastore.{Tables, done}
use identity_vault.Datastore.Users.{create_user, update_user}
use identity_vault.Datastore.Users.Atomic.{SameRows, told, run, all_or_nothing}
use identity_vault.Datastore.Users.Atomic
use identity_vault.Server.Auth.{
  Caller, superuser, jwt_check, with_bearer, get_user_from_jwt, check_user_permissions,
}
use identity_vault.Server.Reply.{Writer, new_writer, as_json, answer}
use identity_vault.Server.Users.{
  Env, Request, Decoded, request, user_of, refused, told_by, create, update, create_handler,
  update_handler,
}
use identity_vault.Server.Users.Answers.{
  IsTold, IsRead, IsFresh, Told, refused-Told, told_by-Told, for_request-Told, for_number-Told,
  when_known-Told, with_bearer-IsFresh,
}

module _ (env : Env) (lang : Locale) (parse : JsonParse) (s : UserEdit.State)
    (read : IsRead parse env.encode) where
  -- The handlers behind the tests of the request.
  abbrev Created : Decoded → Tables → Tables → Type 0
  Created body t t' =
      (r : Request) × (id : ℕ) × (body ≡ request r)
      × (create_user env.to_lower env.random env.wire (user_of 0 r) t ≡ (done id, t'))

  abbrev Updated : String ⊎ ℕ → Decoded → Tables → Tables → Type 0
  Updated path_id body t t' =
      (id : ℕ) × (r : Request) × (path_id ≡ inr id)
      × (body ≡ request r)
      × (update_user env.to_lower env.random env.wire (user_of id r) t ≡ (done tt, t'))

  create_handler-Told :
      (caller : Caller) (r : Request) (t : Tables) (w : Writer)
      → IsFresh w
      → Told env lang parse s read
          (Created (request r) t)
          t
          (create_handler env caller (user_of 0 r) t w)
  unfolding create_handler run
  create_handler-Told caller r t w f =
      let made = create_user env.to_lower env.random env.wire (user_of 0 r) t in
      let stored = Created (request r) t in
      elim (Bool-cases (check_user_permissions env.gate caller superuser false)) [
        | inl p ↦
            let e : create_handler env caller (user_of 0 r) t w
                ≡ told_by env (λ e. refused env "error-creating-user" (env.text e)) made
                    (as_json w) =
              rw p refl in
            subst (Told env lang parse s read stored t) (sym e) (
              told_by-Told env lang parse s read stored "error-creating-user" env.text made t
                (as_json w) f (λ id h. (r, id, refl, h))
                (all_or_nothing env.to_lower env.random env.wire (Atomic.create (user_of 0 r)) t))
        | inr p ↦
            let e : create_handler env caller (user_of 0 r) t w
                ≡ (refused env "error-auth" "" (as_json w), t) =
              rw p refl in
            subst (Told env lang parse s read stored t) (sym e)
              (refused-Told env lang parse s read stored "error-auth" "" (as_json w) t f)
      ]

  update_handler-Told :
      (caller : Caller) (id : ℕ) (r : Request) (t : Tables) (w : Writer)
      → IsFresh w
      → Told env lang parse s read
          (Updated (inr id) (request r) t)
          t
          (update_handler env caller (user_of id r) t w)
  unfolding update_handler run
  update_handler-Told caller id r t w f =
      let made = update_user env.to_lower env.random env.wire (user_of id r) t in
      let stored = Updated (inr id) (request r) t in
      elim (Bool-cases (check_user_permissions env.gate caller superuser false)) [
        | inl p ↦
            let e : update_handler env caller (user_of id r) t w
                ≡ told_by env (λ e. refused env "error-stores-substore" "Error updating the store")
                    made (as_json w) =
              rw p refl in
            subst (Told env lang parse s read stored t) (sym e) (
              told_by-Told env lang parse s read stored "error-stores-substore"
                (λ e. "Error updating the store") made t (as_json w) f
                (λ u h. (id, r, refl, refl, h))
                (all_or_nothing env.to_lower env.random env.wire (Atomic.update (user_of id r)) t))
        | inr p ↦
            let e : update_handler env caller (user_of id r) t w
                ≡ (refused env "error-auth" "" (as_json w), t) =
              rw p refl in
            subst (Told env lang parse s read stored t) (sym e)
              (refused-Told env lang parse s read stored "error-auth" "" (as_json w) t f)
      ]

-- Whatever the form of a user sends, and whoever sends it: the form is left for the list of the users
-- exactly where the handler of the request had the user of the body stored, as the database reported;
-- else it stays, with nothing changed but its error, and the rows of all three tables are as they were.
-- The answers are read as objects.
pub saves-tell :
    (env : Env) (lang : Locale) (parse : JsonParse) (s : UserEdit.State) (path_id : String ⊎ ℕ)
    (body : Decoded) (t : Tables)
    → IsRead parse env.encode
    → let (made, t1) = create env body t in
      let (changed, t2) = update env path_id body t in
      IsTold s
        (on_saved lang parse (answer made) s)
        ((r : Request) × (id : ℕ) × (body ≡ request r)
          × (create_user env.to_lower env.random env.wire (user_of 0 r) t ≡ (done id, t1)))
        t
        t1
      × IsTold s
          (on_saved lang parse (answer changed) s)
          ((id : ℕ) × (r : Request) × (path_id ≡ inr id)
            × (body ≡ request r)
            × (update_user env.to_lower env.random env.wire (user_of id r) t ≡ (done tt, t2)))
          t
          t2
unfolding create update
saves-tell env lang parse s path_id body t read =
    let checked = jwt_check env.gate in
    let user = get_user_from_jwt checked in
    let plain = with_bearer checked new_writer in
    let json = with_bearer checked (as_json new_writer) in
    let f = with_bearer-IsFresh checked new_writer (refl, refl) in
    let g = with_bearer-IsFresh checked (as_json new_writer) (refl, refl) in
    (
      when_known-Told env lang parse s read (Created env lang parse s read body t) user t plain _ f
          (λ caller.
            for_request-Told env lang parse s read (λ b. Created env lang parse s read b t) body t
              plain _ f (λ r. create_handler-Told env lang parse s read caller r t plain f)),
      when_known-Told env lang parse s read (Updated env lang parse s read path_id body t) user t
          json _ g
          (λ caller.
            for_number-Told env lang parse s read (λ n. Updated env lang parse s read n body t)
              "error-invalid-account" path_id t json _ g
              (λ id.
                for_request-Told env lang parse s read
                  (λ b. Updated env lang parse s read (inr id) b t) body t json _ g
                  (λ r. update_handler-Told env lang parse s read caller id r t json g))),
    )
