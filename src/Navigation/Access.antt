-- ===== src/Navigation/Access.antt =====
-- The links of webapp-admin/src/components/Navigation.js, and whom their pages let in.
use identity_vault.Common.{
  ℕ, String, Bool, true, false, ◌≡◌, ◌≢◌, refl, inl, inr, Option, none, some, List, [], ◌∷◌, arith,
  IsIn, ◌≤◌, str_eq, eq_iff, Bool-cases, if◌then◌else◌, ◌==◌,
}
use identity_vault.Common.Value.{Value}
use identity_vault.Utils.{
  Token, has_level, is_user, is_user_standard, is_user_admin, is_user_superuser,
}
use identity_vault.Page.{denied}
use identity_vault.AccountPages.Overview as AccountOverview
use identity_vault.KeypairPages.Overview as KeypairOverview
use identity_vault.ModelPages.Overview as ModelOverview
use identity_vault.SigningLog
use identity_vault.SystemUser
use identity_vault.UserList
use identity_vault.Navigation.{links, links_for, links_admin, links_superuser, links_standard}

abbrev is_in : String → List String → Bool
is_in s [] = false
is_in s (x ∷ xs) = let rest = is_in s xs in if str_eq s x then true else rest

IsIn-is_in : (s : String) (xs : List String) → IsIn s xs → is_in s xs ≡ true
IsIn-is_in s [] h = elim h [ ]
IsIn-is_in s (x ∷ xs) (inl e) = ground (arith, eq_iff s x)
IsIn-is_in s (x ∷ xs) (inr h) = ground (arith, IsIn-is_in s xs h)

false-ne-true : false ≢ true
false-ne-true e = cc

-- A role whose menu has the section reaches the level that each of the three menus allows for it.
menu_level :
    (s : String) (l : ℕ) (o : Option ℕ)
    → (is_in s links_admin ≡ true → l ≤ 200)
    → (is_in s links_superuser ≡ true → l ≤ 300)
    → (is_in s links_standard ≡ true → l ≤ 100)
    → is_in s (links_for o) ≡ true
    → has_level l o ≡ true
menu_level s l none a b c h = cc
menu_level s l (some r) a b c h = elim (Bool-cases (r == 200)) [
  | inl e ↦ let k = a (rw e at h) in ground arith
  | inr e ↦ elim (Bool-cases (r == 300)) [
    | inl f ↦ let k = b (rw (e, f) at h) in ground arith
    | inr f ↦ elim (Bool-cases (r == 100)) [
      | inl g ↦ let k = c (rw (e, f, g) at h) in ground arith
      | inr g ↦ absurd (false-ne-true (rw (e, f, g) at h))
    ]
  ]
]

module _ (t : Token) where
  linked : (s : String) → IsIn s (links t) → is_in s (links_for t.role) ≡ true
  unfolding links
  linked s h = IsIn-is_in s (links_for t.role) h

  superuser_of :
      (s : String)
      → is_in s links_admin ≡ false
      → is_in s links_standard ≡ false
      → IsIn s (links t)
      → is_user_superuser (some t) ≡ true
  unfolding is_user_superuser is_user
  superuser_of s a c h = menu_level s 300 t.role (λ k. cc) (λ k. omega arith) (λ k. cc) (linked s h)

  admin_of :
      (s : String)
      → is_in s links_standard ≡ false
      → IsIn s (links t)
      → is_user_admin (some t) ≡ true
  unfolding is_user_admin is_user
  admin_of s c h =
      menu_level s 200 t.role (λ k. omega arith) (λ k. omega arith) (λ k. cc) (linked s h)

  standard_of : (s : String) → IsIn s (links t) → is_user_standard (some t) ≡ true
  unfolding is_user_standard is_user
  standard_of s h =
      menu_level s 100 t.role (λ k. omega arith) (λ k. omega arith) (λ k. omega arith) (linked s h)

-- No link in the menu leads to a refusal: with the token that has a section in its menu, the page of
-- that section is shown, whatever its state and the lists that it is handed.
pub menu_admits :
    (t : Token) (account : Value) (items : List Value)
    → (IsIn "accounts" (links t)
        → (s : AccountOverview.State) → AccountOverview.render (some t) account items s ≢ denied)
      × (IsIn "users" (links t) → (s : UserList.State) → UserList.render (some t) s ≢ denied)
      × (IsIn "signing-keys" (links t) → KeypairOverview.render (some t) items ≢ denied)
      × (IsIn "models" (links t)
          → (s : ModelOverview.State) → ModelOverview.render (some t) items s ≢ denied)
      × (IsIn "signinglog" (links t)
          → (s : SigningLog.State) → SigningLog.render (some t) s ≢ some SigningLog.denied)
      × (IsIn "systemuser" (links t)
          → (M : Type 0) (s : SystemUser.State M)
          → SystemUser.render (some t) items s ≢ SystemUser.denied)
unfolding AccountOverview.render UserList.render KeypairOverview.render ModelOverview.render
    SigningLog.render SystemUser.render
menu_admits t account items = (
  λ h s e. ground (arith, superuser_of t "accounts" refl refl h),
  λ h s e. ground (arith, superuser_of t "users" refl refl h),
  λ h e. ground (arith, admin_of t "signing-keys" refl h),
  λ h s e. ground (arith, admin_of t "models" refl h),
  λ h s e. ground (arith, admin_of t "signinglog" refl h),
  λ h M s e. ground (arith, standard_of t "systemuser" h),
)
