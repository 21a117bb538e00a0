-- ===== src/Datastore/Users/Atomic.antt =====
-- The transactions of datastore/usermanager.go: what they leave of the tables when they fail.
use identity_vault.Common.{
  ℕ, String, Bool, true, false, ◌≡◌, refl, sym, ◌∙◌, ap, Option, none, some, arith, subst,
  Bool-cases, inl, inr,
}
use identity_vault.Datastore.{
  Error, Try, done, failed, no_connection, User, Tables, Step, Wire, transaction, ended,
}
use identity_vault.Datastore.Users.{
  create_user, update_user, delete_user, create_all, update_all, delete_all, unless_invalid,
  with_key,
}
use identity_vault.Datastore.Validation.{validate_user}

-- A change that the server makes to its users.
pub data Change : Type 0 where
  create update : User → Change
  remove : ℕ → Change

-- The error that a caller is told.
abbrev pub told : {A : Type 0} → Try A × Tables → Option Error × Tables
told (done a, t) = (none, t)
told (failed e, t) = (some e, t)

-- The change with the lower case and the random text of its time.
unfoldable pub run : (String → String) → String → Wire → Change → Tables → Option Error × Tables
unfolding create_user update_user delete_user
run to_lower random wire (create u) t = told (create_user to_lower random wire u t)
run to_lower random wire (update u) t = told (update_user to_lower random wire u t)
run to_lower random wire (remove id) t = told (delete_user wire id t)

-- The rows of the tables are the same.
abbrev pub SameRows : Tables → Tables → Type 0
SameRows t t' = (t'.users ≡ t.users) × (t'.links ≡ t.links) × (t'.accounts ≡ t.accounts)

-- A transaction whose error is told, and one that does not commit.
ended-SameRows :
    {A : Type 0} (commits : Bool) (t : Tables) (r : Try A × Tables) (e : Error)
    → (told (ended commits t r)).0 ≡ some e
    → SameRows t (told (ended commits t r)).1
ended-SameRows commits t (failed e, t') e' h = (refl, refl, refl)
ended-SameRows true t (done a, t') e' h = ground arith
ended-SameRows false t (done a, t') e' h = (refl, refl, refl)

transaction-SameRows :
    {A : Type 0} (wire : Wire) (body : Step A) (t : Tables) (e : Error)
    → (told (transaction wire body t)).0 ≡ some e
    → SameRows t (told (transaction wire body t)).1
unfolding transaction
transaction-SameRows wire body t e h = elim (Bool-cases wire.begins) [
  | inl b ↦
      let w : (told (transaction wire body t)) ≡ told (ended wire.commits t (body t)) = rw b refl in
      subst (λ r. SameRows t r.1) (sym w)
        (ended-SameRows wire.commits t (body t) e (ap (λ r. r.0) (sym w) ∙ h))
  | inr b ↦
      let w : (told (transaction wire body t)) ≡ (some no_connection, t) = rw b refl in
      subst (λ r. SameRows t r.1) (sym w) (refl, refl, refl)
]

unless_invalid-SameRows :
    {A : Type 0} (error : Option Error) (wire : Wire) (body : Step A) (t : Tables) (e : Error)
    → (told (unless_invalid error (transaction wire body) t)).0 ≡ some e
    → SameRows t (told (unless_invalid error (transaction wire body) t)).1
unless_invalid-SameRows none wire body t e h = transaction-SameRows wire body t e h
unless_invalid-SameRows (some e) wire body t e' h = (refl, refl, refl)

-- A change of which the caller is told an error leaves the rows of all three tables as they were,
-- wherever it failed: in the checks of the fields, at a row, or at any link to an account.
pub all_or_nothing :
    (to_lower : String → String) (random : String) (wire : Wire) (c : Change) (t : Tables)
    (e : Error)
    → (run to_lower random wire c t).0 ≡ some e
    → SameRows t (run to_lower random wire c t).1
unfolding run create_user update_user delete_user
all_or_nothing to_lower random wire (create u) t e h =
    unless_invalid-SameRows (validate_user to_lower (with_key random u).row) wire
      (create_all (with_key random u)) t e h
all_or_nothing to_lower random wire (update u) t e h =
    unless_invalid-SameRows (validate_user to_lower (with_key random u).row) wire
      (update_all (with_key random u)) t e h
all_or_nothing to_lower random wire (remove id) t e h =
    transaction-SameRows wire (delete_all id) t e h

abbrev pub committed : Wire
committed = record { begins = true; commits = true }
