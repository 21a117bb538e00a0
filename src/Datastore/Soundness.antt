-- ===== src/Datastore/Soundness.antt =====
-- What the tables promise of their rows, and the lemmas on lists that it takes.
use identity_vault.Common.{
  ℕ, Bool, true, false, ◌≡◌, List, [], ◌∷◌, ◌++◌, arith, ◌==◌, filter, map, str_eq, All, ◌<◌,
}
use identity_vault.Datastore.{Row, Tables, Account, any}

module _ {A : Type 0} where
  pub All-imp : (P Q : A → Type 0) (xs : List A) → ((x : A) → P x → Q x) → All P xs → All Q xs
  All-imp P Q [] f h = tt
  All-imp P Q (x ∷ xs) f (h, t) = (f x h, All-imp P Q xs f t)

  pub All-both :
      (P Q R : A → Type 0) (xs : List A)
      → ((x : A) → P x → Q x → R x)
      → All P xs
      → All Q xs
      → All R xs
  All-both P Q R [] f h k = tt
  All-both P Q R (x ∷ xs) f (h, t) (k, s) = (f x h k, All-both P Q R xs f t s)

  pub All-snoc : (P : A → Type 0) (xs : List A) (y : A) → All P xs → P y → All P (xs ++ y ∷ [])
  All-snoc P [] y h k = (k, tt)
  All-snoc P (x ∷ xs) y (h, t) k = (h, All-snoc P xs y t k)

  pub All-kept : (P : A → Type 0) (p : A → Bool) (xs : List A) → All P xs → All P (filter p xs)
  All-kept P p [] h = tt
  All-kept P p (x ∷ xs) (h, t) = ground (arith, All-kept P p xs t, h)

  pub All-map :
      (P : A → Type 0) (f : A → A) (xs : List A) → All (λ x. P (f x)) xs → All P (map f xs)
  All-map P f [] h = tt
  All-map P f (x ∷ xs) (h, t) = (h, All-map P f xs t)

  -- No element passes the test.
  pub any-none : (p : A → Bool) (xs : List A) → any p xs ≡ false → All (λ x. p x ≡ false) xs
  any-none p [] h = tt
  any-none p (x ∷ xs) h = (ground arith, any-none p xs (ground arith))

  pub any-snoc :
      (p : A → Bool) (xs : List A) (y : A) → any p xs ≡ true → any p (xs ++ y ∷ []) ≡ true
  any-snoc p [] y h = ground arith
  any-snoc p (x ∷ xs) y h = ground (arith, any-snoc p xs y)

  -- All pairs of elements, an element with itself as well.
  abbrev pub Pairs : (A → A → Type 0) → List A → Type 0
  Pairs R xs = All (λ x. All (R x) xs) xs

  pub Pairs-snoc :
      (R : A → A → Type 0) (xs : List A) (y : A)
      → Pairs R xs
      → All (λ x. R x y) xs
      → All (R y) xs
      → R y y
      → Pairs R (xs ++ y ∷ [])
  Pairs-snoc R xs y h k l m =
      All-snoc (λ x. All (R x) (xs ++ y ∷ [])) xs y
        (All-both (λ x. All (R x) xs) (λ x. R x y) (λ x. All (R x) (xs ++ y ∷ [])) xs
          (λ x a b. All-snoc (R x) xs y a b) h k)
        (All-snoc (R y) xs y l m)

  pub Pairs-kept :
      (R : A → A → Type 0) (p : A → Bool) (xs : List A) → Pairs R xs → Pairs R (filter p xs)
  Pairs-kept R p xs h =
      All-imp (λ x. All (R x) xs) (λ x. All (R x) (filter p xs)) (filter p xs)
        (λ x. All-kept (R x) p xs) (All-kept (λ x. All (R x) xs) p xs h)

-- A link refers to a user and to an account that there are.
abbrev pub Refers : List Row → List Account → ℕ × ℕ → Type 0
Refers users accounts (u, a) =
    (any (λ v. v.id == u) users ≡ true) × (any (λ b. b.id == a) accounts ≡ true)

-- Two users have one id exactly where they have one name.
abbrev pub Apart : Row → Row → Type 0
Apart v w = (v.id == w.id) ≡ str_eq v.username w.username

-- The numbers of the users are drawn, their names are their own, and no link dangles.
pub record IsSound (t : Tables) : Type 0 where
  pub drawn : All (λ v. v.id < t.next_id) t.users
  pub named : Pairs Apart t.users
  pub referred : All (Refers t.users t.accounts) t.links
