-- ===== src/Frame/Language.antt =====
-- The language of webapp-admin/src/index.js and components/Header.js over everything that happens to it.
-- The buttons for it are commented out in the header; the step is the handler that they call.
use identity_vault.Common.{
  ℕ, zero, suc, String, ◌≡◌, refl, sym, ap, ◌∙◌, ◌⊎◌, inl, inr, Option, none, some, [], ◌∷◌, subst,
}
use identity_vault.Http.{JsonParse, Response}
use identity_vault.Utils.{Token, get_auth_token}
use identity_vault.Startup.{
  Mounted, Window, get_locale, set_locale, render, unmount, rerender, started, take_at,
  put_in_place, on_token,
}
use identity_vault.Frame.Header.{handle_language_change}
use identity_vault.Frame.Header

-- A language is chosen, which only a header in place lets one do; the token of a waiting rendering comes.
pub data Step (jwt_decode : String → Option (Option Token)) (parse : JsonParse)
    : Window → Window → Type 0 where
  change :
      {w : Window} {m : Mounted} (value : String) (s : Header.State)
      → w.mounted ≡ some m
      → Step jwt_decode parse w (handle_language_change value s w).1
  token :
      {w : Window} (i : ℕ) (r : Response)
      → Step jwt_decode parse w (on_token jwt_decode parse i r w)

pub data Reach (jwt_decode : String → Option (Option Token)) (parse : JsonParse)
    (locale : Option String) : Window → Type 0 where
  start : Reach jwt_decode parse locale (started locale)
  next :
      {v w : Window}
      → Reach jwt_decode parse locale v
      → Step jwt_decode parse v w
      → Reach jwt_decode parse locale w

-- The application is in place, in the language of the storage, and no rendering waits; or it is not in
-- place, and the one rendering that waits, if any, has this language.
abbrev pub IsInLanguage : Window → Type 0
IsInLanguage w =
    ((m : Mounted) × (w.mounted ≡ some m) × (m.locale ≡ get_locale w) × (w.waiting ≡ []))
    ⊎ ((w.mounted ≡ none) × ((w.waiting ≡ []) ⊎ (w.waiting ≡ get_locale w ∷ [])))

started-IsInLanguage : (locale : Option String) → IsInLanguage (started locale)
unfolding started render get_locale
started-IsInLanguage locale = inr (refl, inr refl)

change-IsInLanguage :
    (w : Window) (value : String) (s : Header.State) (m : Mounted)
    → w.mounted ≡ some m
    → IsInLanguage w
    → IsInLanguage (handle_language_change value s w).1
unfolding handle_language_change set_locale rerender render unmount get_locale
change-IsInLanguage w value s m e (inl (n, k, l, none_waits)) = inr (refl, inr (rw none_waits refl))
change-IsInLanguage w value s m e (inr (k, l)) = absurd (some-ne-none (sym e ∙ k))
  where
    some-ne-none : some m ≡ none → ⊥
    some-ne-none h = cc

take_at_one :
    (i : ℕ) (x : String) → (take_at i (x ∷ []) ≡ none) ⊎ (take_at i (x ∷ []) ≡ some (x, []))
take_at_one zero x = inr refl
take_at_one (suc i) x = inl refl

module _ (jwt_decode : String → Option (Option Token)) (parse : JsonParse) (i : ℕ) (r : Response)
    (w : Window) where
  idle : take_at i w.waiting ≡ none → on_token jwt_decode parse i r w ≡ w
  unfolding on_token
  idle e = rw (on_token, e) refl

  answered :
      take_at i w.waiting ≡ some (get_locale w, [])
      → on_token jwt_decode parse i r w
        ≡ put_in_place (get_auth_token jwt_decode parse r) (get_locale w) [] w
  unfolding on_token
  answered h = rw (on_token, h) refl

  placed : (o : Option Token) → w.mounted ≡ none → IsInLanguage (put_in_place o (get_locale w) [] w)
  unfolding get_locale
  placed none k = inr (k, inl refl)
  placed (some t) k = inl (_, refl, refl, refl)

  token-IsInLanguage : IsInLanguage w → IsInLanguage (on_token jwt_decode parse i r w)
  token-IsInLanguage (inl (m, k, l, e)) = rw (idle (ap (take_at i) e)) (inl (m, k, l, e))
  token-IsInLanguage (inr (k, inl e)) = rw (idle (ap (take_at i) e)) (inr (k, inl e))
  token-IsInLanguage (inr (k, inr e)) = elim (take_at_one i (get_locale w)) [
    | inl nobody ↦ rw (idle (ap (take_at i) e ∙ nobody)) (inr (k, inr e))
    | inr taken ↦
        subst IsInLanguage (sym (answered (ap (take_at i) e ∙ taken)))
          (placed (get_auth_token jwt_decode parse r) k)
  ]

-- Whatever languages are chosen and whenever the answers with the tokens come, the application that is
-- in place speaks the language of the storage and no other rendering waits to replace it; while none is
-- in place, at most one rendering waits, and it has this language.
pub Reach-IsInLanguage :
    {jwt_decode : String → Option (Option Token)} {parse : JsonParse} {locale : Option String}
    {w : Window}
    → Reach jwt_decode parse locale w
    → IsInLanguage w
Reach-IsInLanguage {locale = locale} start = started-IsInLanguage locale
Reach-IsInLanguage (next r (change {w} {m} value s e)) =
    change-IsInLanguage w value s m e (Reach-IsInLanguage r)
Reach-IsInLanguage {jwt_decode} {parse} (next r (token {w} i a)) =
    token-IsInLanguage jwt_decode parse i a w (Reach-IsInLanguage r)
