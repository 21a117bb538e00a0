-- ===== src/Examples/Permissions.antt =====
-- The permissions of the server at concrete roles.
use identity_vault.Common.{String, true, ◌≡◌, refl, Option, some, [], ◌∷◌, arith, All}
use identity_vault.Common.Value.{Value, str, fields, object, prop, undefined, to_text}
use identity_vault.Messages.{en}
use identity_vault.Utils.{Token, empty_session, is_logged_in}
use identity_vault.App.{Pending, opened, deliver}
use identity_vault.Navigation.{links}
use identity_vault.Datastore.{Tables}
use identity_vault.Server.Auth.{Gate, Caller}
use identity_vault.Server.Reply.{answer}
use identity_vault.Server.Accounts
use identity_vault.Server.Matching.{Mux, first_fit, is_part}
use identity_vault.Server.Menu.{IsPermitted, opening_calls, menu-IsPermitted}
use identity_vault.Server.Standard.{refusal, no_models}

abbrev plain : Mux
plain = record { serve = first_fit; documented = λ routes m rest plain. refl }

abbrev signed_in : Caller → Gate
signed_in user = record { enable_user_auth = true; jwt = some "jwt"; verify = λ s. some user }

abbrev admin_caller : Caller
admin_caller = record { username = "ann"; role = 200 }

abbrev standard_caller : Caller
standard_caller = record { username = "sam"; role = 100 }

abbrev ann : Token
ann = record { name = some "ann"; role = some 200 }

abbrev sam : Token
sam = record { name = some "sam"; role = some 100 }

abbrev account : Value
account = object (fields (("AuthorityID", str "canonical") ∷ []))

menu-IsPermitted_example :
    All
      (λ s. All (IsPermitted plain (signed_in admin_caller) admin_caller) (opening_calls s account))
      (links ann)
unfolding to_text prop is_part
menu-IsPermitted_example =
    menu-IsPermitted plain (signed_in admin_caller) admin_caller ann account refl refl refl

abbrev nothing : Tables
nothing = record { users = []; links = []; accounts = []; next_id = 1 }

-- An encoding that writes nothing, and its reading.
abbrev no_text : Value → String
no_text v = ""

abbrev refused : String → Option Value
refused s = some refusal

no_models_example :
    let (w, asked) = opened (some sam) empty_session "/systemuser" in
    (asked ≡ Pending.accounts_list ∷ [])
    × (deliver en refused Pending.accounts_list
          (answer (Accounts.list no_text (signed_in standard_caller) nothing))
          w
        ≡ (w, []))
    × (w.state.models ≡ [])
    × (w.state.message ≡ undefined)
unfolding is_logged_in
no_models_example =
    no_models no_text refused (signed_in standard_caller) "jwt" standard_caller nothing en sam
      empty_session "/systemuser" refl refl refl refl (omega arith) refl
