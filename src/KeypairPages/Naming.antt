-- ===== src/KeypairPages/Naming.antt =====
-- What the inputs of webapp-admin/src/components/KeypairStore.js change.
use identity_vault.Common.{refl, [], ◌∷◌, String, ◌≡◌, if◌then◌else◌, str_eq}
use identity_vault.Common.Value.{Value, str, object, Fields, get, put, prop}
use identity_vault.Common.Value.Laws.{get-put}
use identity_vault.Page.{ask}
use identity_vault.Resources.Keypairs
use identity_vault.KeypairPages.Store.{
  State, change, handle_save_click, handle_change_name, handle_change_email, handle_change_password,
  handle_change_otp,
}

-- What the server reads of the request, `KeyRegister` of store/store.go.
pub record KeyRegister : Type 0 where
  pub email : Value
  pub password : Value
  pub otp : Value
  pub authority_id : Value
  pub key_name : Value

unfoldable pub read : Value → KeyRegister
unfolding prop
read v = record {
  email = prop "email" v;
  password = prop "password" v;
  otp = prop "otp" v;
  authority_id = prop "authority-id" v;
  key_name = prop "key-name" v;
}

put-read :
    (k value : String) (fs : Fields)
    → read (object (put k (str value) fs)) ≡ record {
      email = if str_eq k "email" then str value else get "email" fs;
      password = if str_eq k "password" then str value else get "password" fs;
      otp = if str_eq k "otp" then str value else get "otp" fs;
      authority_id = if str_eq k "authority-id" then str value else get "authority-id" fs;
      key_name = if str_eq k "key-name" then str value else get "key-name" fs;
    }
unfolding read prop
put-read k value fs =
    rw
      (
        get-put "email" k (str value) fs,
        get-put "password" k (str value) fs,
        get-put "otp" k (str value) fs,
        get-put "authority-id" k (str value) fs,
        get-put "key-name" k (str value) fs,
      )
      refl

-- The form asks for a registration, of which the server reads what is given.
abbrev pub Registers : State → KeyRegister → Type 0
Registers s k =
    (v : Value) × ((handle_save_click s).1 ≡ ask (Keypairs.register v) ∷ []) × (read v ≡ k)

-- Whatever name is typed into the form, a click on the button sends a request of which the server reads
-- the same key and the same credentials as before; each of the three credentials that is typed is what
-- it reads in place of the one before, and nothing else changes.
pub typed_name_is_lost :
    (fs : Fields) (error : Value) (value : String)
    → let s : State = record { keypair = object fs; error = error } in
      let k = read (object fs) in
      Registers (handle_change_name value s) k
      × Registers (handle_change_email value s) (record k { email = str value })
      × Registers (handle_change_password value s) (record k { password = str value })
      × Registers (handle_change_otp value s) (record k { otp = str value })
unfolding handle_change_name handle_change_email handle_change_password handle_change_otp
    handle_save_click read prop change
typed_name_is_lost fs error value = (
  (object (put "KeyName" (str value) fs), refl, put-read "KeyName" value fs),
  (object (put "email" (str value) fs), refl, put-read "email" value fs),
  (object (put "password" (str value) fs), refl, put-read "password" value fs),
  (object (put "otp" (str value) fs), refl, put-read "otp" value fs),
)
