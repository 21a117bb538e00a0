-- ===== src/Server/Users/Answers.antt =====
-- The answers of service/user, read by the form of a user, webapp-admin/src/components/UserEdit.js: each
-- step of a handler either lets the form be left or keeps it.
use identity_vault.Common.{
  ℕ, String, Bool, true, false, ◌≡◌, refl, ◌⊎◌, inl, inr, [], ◌∷◌, some, none, leb,
}
use identity_vault.Common.Value.{Value, Fields, object}
use identity_vault.Http.{JsonParse, Response}
use identity_vault.Messages.{Locale}
use identity_vault.Page.{Result, go_to, outcome}
use identity_vault.UserEdit
use identity_vault.UserEdit.{on_saved}
use identity_vault.Datastore.{Tables, Try, done, failed, Error}
use identity_vault.Datastore.Users.Atomic.{SameRows, told}
use identity_vault.Server.Auth.{
  Caller, Checked, bad, off, claims, User, unknown, known, with_bearer,
}
use identity_vault.Server.Reply.{Writer, answer, standard, format_standard}
use identity_vault.Server.Users.{
  Env, Request, Decoded, empty, malformed, request, refused, succeeded, told_by, when_known,
  for_request, for_number,
}
use text.Mathlib.TextLemmas.{nil-append}

-- Whether the form is left, as its user was stored, or stays with an error, and with the rows as they were.
abbrev pub IsTold : UserEdit.State → Result UserEdit.State → Type 0 → Tables → Tables → Type 0
IsTold s result Stored t t' =
    ((result ≡ (s, go_to "/users" ∷ [])) × Stored)
    ⊎ ((result.1 ≡ []) × (result.0 ≡ record s { error = result.0.error }) × SameRows t t')

-- An answer is read as an object.
abbrev pub IsRead : JsonParse → (Value → String) → Type 0
IsRead parse encode =
    (success : Bool) (code subcode message : String)
    → (fs : Fields) × (parse (encode (standard success code subcode message)) ≡ some (object fs))

-- Nothing is written yet.
abbrev pub IsFresh : Writer → Type 0
IsFresh w = (w.status ≡ none) × (w.body ≡ "")

module _ (env : Env) (lang : Locale) (parse : JsonParse) (s : UserEdit.State)
    (read : IsRead parse env.encode) where
  read-refused :
      (r : Response) (fs : Fields)
      → parse r.body ≡ some (object fs)
      → leb 300 r.status_code ≡ true
      → ((on_saved lang parse r s).1 ≡ [])
        × ((on_saved lang parse r s).0 ≡ record s { error = (on_saved lang parse r s).0.error })
  unfolding on_saved outcome
  read-refused r fs e f = rw (on_saved, e, f) (refl, refl)

  read-accepted :
      (r : Response) (fs : Fields)
      → parse r.body ≡ some (object fs)
      → leb 300 r.status_code ≡ false
      → on_saved lang parse r s ≡ (s, go_to "/users" ∷ [])
  unfolding on_saved outcome
  read-accepted r fs e f = rw (on_saved, e, f) refl

  refused-stays :
      (code message : String) (w : Writer)
      → IsFresh w
      → let r = on_saved lang parse (answer (refused env code message w)) s in
        (r.1 ≡ []) × (r.0 ≡ record s { error = r.0.error })
  unfolding format_standard
  refused-stays code message w (st, bd) =
      let (fs, e) = read false code "" message in
      read-refused (answer (refused env code message w)) fs
        (rw (bd, nil-append (env.encode (standard false code "" message))) e) (rw st refl)

  succeeded-leaves :
      (w : Writer)
      → IsFresh w
      → on_saved lang parse (answer (succeeded env w)) s ≡ (s, go_to "/users" ∷ [])
  unfolding format_standard
  succeeded-leaves w (st, bd) =
      let (fs, e) = read true "" "" "" in
      read-accepted (answer (succeeded env w)) fs
        (rw (bd, nil-append (env.encode (standard true "" "" ""))) e) (rw st refl)

  -- The answer of a handler and the tables that it leaves.
  abbrev pub Told : (Tables → Type 0) → Tables → Writer × Tables → Type 0
  Told Stored t x = IsTold s (on_saved lang parse (answer x.0) s) (Stored x.1) t x.1

  pub refused-Told :
      (Stored : Tables → Type 0) (code message : String) (w : Writer) (t : Tables)
      → IsFresh w
      → Told Stored t (refused env code message w, t)
  refused-Told Stored code message w t f =
      let (none_asked, same) = refused-stays code message w f in
      inr (none_asked, same, (refl, refl, refl))

  pub told_by-Told :
      {A : Type 0} (Stored : Tables → Type 0) (code : String) (message : Error → String)
      (r : Try A × Tables) (t : Tables) (w : Writer)
      → IsFresh w
      → ((a : A) → r ≡ (done a, r.1) → Stored r.1)
      → ((e : Error) → (told r).0 ≡ some e → SameRows t (told r).1)
      → Told Stored t (told_by env (λ e. refused env code (message e)) r w)
  told_by-Told Stored code message (done a, t') t w f stored same =
      inl (succeeded-leaves w f, stored a refl)
  told_by-Told Stored code message (failed e, t') t w f stored same =
      let (none_asked, kept) = refused-stays code (message e) w f in
      inr (none_asked, kept, same e refl)

  pub for_request-Told :
      (Stored : Decoded → Tables → Type 0) (body : Decoded) (t : Tables) (w : Writer)
      (k : Request → Writer × Tables)
      → IsFresh w
      → ((r : Request) → Told (Stored (request r)) t (k r))
      → Told (Stored body) t (for_request env body t w k)
  for_request-Told Stored empty t w k f h =
      refused-Told (Stored empty) "error-user-data" "No user data supplied." w t f
  for_request-Told Stored (malformed e) t w k f h =
      refused-Told (Stored (malformed e)) "error-decode-json" e w t f
  for_request-Told Stored (request r) t w k f h = h r

  pub for_number-Told :
      (Stored : String ⊎ ℕ → Tables → Type 0) (code : String) (path_id : String ⊎ ℕ) (t : Tables)
      (w : Writer) (k : ℕ → Writer × Tables)
      → IsFresh w
      → ((id : ℕ) → Told (Stored (inr id)) t (k id))
      → Told (Stored path_id) t (for_number env code path_id t w k)
  for_number-Told Stored code (inl e) t w k f h = refused-Told (Stored (inl e)) code e w t f
  for_number-Told Stored code (inr id) t w k f h = h id

  pub when_known-Told :
      (Stored : Tables → Type 0) (u : User) (t : Tables) (w : Writer) (k : Caller → Writer × Tables)
      → IsFresh w
      → ((caller : Caller) → Told Stored t (k caller))
      → Told Stored t (when_known env u t w k)
  when_known-Told Stored (unknown e) t w k f h = refused-Told Stored "error-auth" e w t f
  when_known-Told Stored (known caller) t w k f h = h caller

-- The token writes neither a status nor a body.
pub with_bearer-IsFresh : (c : Checked) (w : Writer) → IsFresh w → IsFresh (with_bearer c w)
unfolding with_bearer
with_bearer-IsFresh (bad e) w f = f
with_bearer-IsFresh off w f = f
with_bearer-IsFresh (claims jwt c) w f = f
