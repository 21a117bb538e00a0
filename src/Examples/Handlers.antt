-- ===== src/Examples/Handlers.antt =====
-- The handlers on users at a concrete request.
use identity_vault.Common.{
  ℕ, String, true, false, ◌≡◌, refl, ◌⊎◌, inr, Option, some, [], ◌∷◌, arith,
}
use identity_vault.Common.Number.{pos}
use identity_vault.Common.Value.{Value, object, end, number, prop}
use identity_vault.Messages.{en}
use identity_vault.Page.{ask}
use identity_vault.Resources.Users
use identity_vault.UserEdit
use identity_vault.UserEdit.{on_saved, on_user, handle_save_click, build_request_data}
use identity_vault.Datastore
use identity_vault.Datastore.{Error, Tables, Account, done}
use identity_vault.Datastore.Users.{create_user, update_user, get_user, accounts_of}
use identity_vault.Server.Auth.{Caller}
use identity_vault.Server.Reply.{answer}
use identity_vault.Server.Users.{Env, Request, request, user_of, create, update}
use identity_vault.Server.Users.Views
use identity_vault.Server.Users.Views.{user_value, success_with}
use identity_vault.Server.Users.Answers.{IsTold}
use identity_vault.Server.Users.Told.{saves-tell}
use identity_vault.Server.Users.Decoding.{decode}
use identity_vault.Server.Users.Editing.{reopened, request_of}

abbrev env : Env
env = record {
  gate = record {
    enable_user_auth = true;
    jwt = some "jwt";
    verify = λ s. some (record { username = "root"; role = 300 });
  };
  wire = record { begins = true; commits = true };
  encode = λ v. "";
  to_lower = λ s. s;
  random = "";
  text = λ e. "error";
}

abbrev bob : Request
bob = record {
  username = "bob";
  name = "Bob Noyce";
  email = "bob@example.com";
  api_key = "0123456789xyz";
  role = pos 100;
  accounts = "canonical" ∷ [];
}

abbrev canonical : Account
canonical = record { id = 1; authority_id = "canonical"; assertion = ""; reseller_api = false }

abbrev tables : Tables
tables = record {
  users = [];
  links = [];
  accounts =
      record { id = 1; authority_id = "canonical"; assertion = ""; reseller_api = false } ∷ [];
  next_id = 1;
}

abbrev first_user : String ⊎ ℕ
first_user = inr 1

abbrev some_object : String → Option Value
some_object s = some (object end)

saves-tell_example :
    let (made, t1) = create env (request bob) tables in
    let (changed, t2) = update env first_user (request bob) tables in
    IsTold UserEdit.initial
      (on_saved en some_object (answer made) UserEdit.initial)
      ((r : Request) × (id : ℕ) × (request bob ≡ request r)
        × (create_user env.to_lower env.random env.wire (user_of 0 r) tables ≡ (done id, t1)))
      tables
      t1
    × IsTold UserEdit.initial
        (on_saved en some_object (answer changed) UserEdit.initial)
        ((id : ℕ) × (r : Request) × (first_user ≡ inr id)
          × (request bob ≡ request r)
          × (update_user env.to_lower env.random env.wire (user_of id r) tables ≡ (done tt, t2)))
        tables
        t2
saves-tell_example =
    saves-tell env en some_object UserEdit.initial first_user (request bob) tables
      (λ success code subcode message. (end, refl))

abbrev stored_bob : Datastore.User
stored_bob = record { row = record ((user_of 1 bob).row) { id = 1 }; accounts = canonical ∷ [] }

abbrev with_bob : Tables
with_bob = record tables { users = stored_bob.row ∷ []; links = (1, 1) ∷ []; next_id = 2 }

abbrev root : Caller
root = record { username = "root"; role = 300 }

abbrev bob_answer : String → Option Value
bob_answer s = some (success_with "user" (user_value stored_bob))

reopened_example :
    let opened =
      on_user en bob_answer (answer (Views.get env first_user with_bob).0) UserEdit.initial in
    (handle_save_click opened ≡ (opened, ask (Users.update (build_request_data opened)) ∷ []))
    × (prop "id" (build_request_data opened) ≡ number (pos 1))
    × (decode "bad" (build_request_data opened) ≡ request (request_of stored_bob))
unfolding get_user accounts_of
reopened_example =
    reopened env "jwt" root 1 100 stored_bob with_bob en bob_answer "bad" UserEdit.initial refl refl
      refl (omega arith) refl refl (omega arith) refl
