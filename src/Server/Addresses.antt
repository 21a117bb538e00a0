-- ===== src/Server/Addresses.antt =====
-- The paths of webapp-admin/src/models, part by part, at the routes of service/router.go.
use text.Mathlib.TextLemmas.{append_assoc}
use identity_vault.Common.{
  ℕ, String, true, false, ◌≡◌, refl, sym, subst, ap, all, Bool-cases, inl, inr, ◌∙◌, some, List, [],
  ◌∷◌, arith, str_eq, eq_iff,
}
use identity_vault.Common.Text.{◌<>◌, split, codes}
use identity_vault.Common.Text.Laws.{Lacks, split_of_Lacks}
use identity_vault.Common.Number.{show}
use identity_vault.Common.Number.Laws.{show-ne-nil, AreDigits, show-AreDigits}
use identity_vault.Http.{Method, get, Response}
use identity_vault.Utils.{parts_of}
use identity_vault.Utils.Paths.{parts_of-slash, split-slash}
use identity_vault.Server.{admin_routes}
use identity_vault.Server.Matching.{
  Mux, first_of, all_digits, is_number, is_part, is_unreserved, first_fit,
}
use identity_vault.Server.Calls.{IsNumeral}

all_digits_of : (cs : List ℕ) → AreDigits cs → all_digits cs ≡ true
all_digits_of [] h = refl
all_digits_of (c ∷ cs) h = rw (h.0, all_digits_of cs h.1) refl

is_number-show : (n : ℕ) → is_number (show n) ≡ true
unfolding is_number
is_number-show n =
    let given : str_eq (show n) "" ≡ false =
      let e = show-ne-nil n in ground (arith, eq_iff (show n) "") in
    rw (given, all_digits_of (codes (show n)) (show-AreDigits n)) refl

-- A part of a path has no slash in it.
unreserved-Lacks : (s : String) → all is_unreserved (codes s) ≡ true → Lacks b'/' s
unreserved-Lacks String.[] h = tt
unreserved-Lacks (String.◌∷◌ c s) h = (λ e. ground (arith, e), unreserved-Lacks s (ground arith))

pub part-Lacks : (s : String) → is_part s ≡ true → Lacks b'/' s
unfolding is_part
part-Lacks s h = unreserved-Lacks s (ground arith)

-- The parts of a path under /v1/.
parts-v1 : (r : String) → parts_of ("/v1/" <> r) ≡ "v1" ∷ split b'/' r
parts-v1 r =
    ap parts_of (append_assoc "/v1" "/" r ∙ append_assoc "/" "v1" ("/" <> r))
    ∙ parts_of-slash ("v1" <> "/" <> r)
    ∙ split-slash "v1" r (omega arith)

-- The parts behind /v1/, and that they are parts.
abbrev pub AreParts : String → List String → Type 0
AreParts rest ps = (split b'/' rest ≡ ps) × (all is_part ps ≡ true)

pub parts_1 : (s : String) → is_part s ≡ true → AreParts s (s ∷ [])
parts_1 s h = (split_of_Lacks b'/' s (part-Lacks s h), ground arith)

-- One more part before.
pub before :
    (s rest : String) (ps : List String)
    → is_part s ≡ true
    → AreParts rest ps
    → AreParts (s <> "/" <> rest) (s ∷ ps)
before s rest ps h (e, k) = (split-slash s rest (part-Lacks s h) ∙ ap (λ r. s ∷ r) e, ground arith)

-- A request is served by what the first fitting route names.
pub served_by :
    (mux : Mux) (m : Method) (rest : String) (parts : List String) (handler : String)
    → AreParts rest parts
    → first_of admin_routes m ("/v1/" <> rest) ("v1" ∷ parts) ≡ some handler
    → mux.serve admin_routes m ("/v1/" <> rest) ≡ some handler
unfolding is_part
served_by mux m rest parts handler (e, k) f =
    let (w, h) = before "v1" rest parts refl (e, k) in
    let u : "/v1/" <> rest ≡ "/" <> "v1" <> "/" <> rest =
      append_assoc "/v1" "/" rest ∙ append_assoc "/" "v1" ("/" <> rest) in
    ap (mux.serve admin_routes m) u
    ∙ mux.documented admin_routes m ("v1" <> "/" <> rest) (ap (all is_part) w ∙ h)
    ∙ ap (first_fit admin_routes m) (sym u)
    ∙ ap (first_of admin_routes m ("/v1/" <> rest)) (parts-v1 rest ∙ ap (λ r. "v1" ∷ r) e)
    ∙ f

-- The token is served.
pub token_served : (mux : Mux) → mux.serve admin_routes get "/v1/token" ≡ some "core.Token"
unfolding admin_routes is_part
token_served mux = served_by mux get "token" ("token" ∷ []) "core.Token" (parts_1 "token" refl) refl

-- The same for a path of one to three parts after /v1/.
pub at_1 :
    (mux : Mux) (m : Method) (s handler : String)
    → is_part s ≡ true
    → first_of admin_routes m ("/v1/" <> s) ("v1" ∷ s ∷ []) ≡ some handler
    → mux.serve admin_routes m ("/v1/" <> s) ≡ some handler
at_1 mux m s handler hs f = served_by mux m s (s ∷ []) handler (parts_1 s hs) f

pub at_2 :
    (mux : Mux) (m : Method) (s t handler : String)
    → is_part s ≡ true
    → is_part t ≡ true
    → first_of admin_routes m ("/v1/" <> s <> "/" <> t) ("v1" ∷ s ∷ t ∷ []) ≡ some handler
    → mux.serve admin_routes m ("/v1/" <> s <> "/" <> t) ≡ some handler
at_2 mux m s t handler hs ht f =
    served_by mux m (s <> "/" <> t) (s ∷ t ∷ []) handler (before s t (t ∷ []) hs (parts_1 t ht)) f

pub parts_3 :
    (s t u : String)
    → is_part s ≡ true
    → is_part t ≡ true
    → is_part u ≡ true
    → AreParts (s <> "/" <> t <> "/" <> u) (s ∷ t ∷ u ∷ [])
parts_3 s t u hs ht hu =
    before s (t <> "/" <> u) (t ∷ u ∷ []) hs (before t u (u ∷ []) ht (parts_1 u hu))

pub at_3 :
    (mux : Mux) (m : Method) (s t u handler : String)
    → is_part s ≡ true
    → is_part t ≡ true
    → is_part u ≡ true
    → first_of admin_routes m ("/v1/" <> s <> "/" <> t <> "/" <> u) ("v1" ∷ s ∷ t ∷ u ∷ [])
      ≡ some handler
    → mux.serve admin_routes m ("/v1/" <> s <> "/" <> t <> "/" <> u) ≡ some handler
at_3 mux m s t u handler hs ht hu f =
    served_by mux m (s <> "/" <> t <> "/" <> u) (s ∷ t ∷ u ∷ []) handler (parts_3 s t u hs ht hu) f

-- A request behind that for the token.
pub sent :
    (mux : Mux) {P : Type 0}
    → P
    → (mux.serve admin_routes get "/v1/token" ≡ some "core.Token") × (Response → P)
sent mux p = (token_served mux, λ r. p)

-- The text of a number stands for one part of a path, which `{id:[0-9]+}` takes.
digits-unreserved : (cs : List ℕ) → all_digits cs ≡ true → all is_unreserved cs ≡ true
digits-unreserved [] h = refl
digits-unreserved (c ∷ cs) h = ground (arith, digits-unreserved cs)

not_that : (s w : String) → is_number s ≡ true → is_number w ≡ false → str_eq s w ≡ false
not_that s w h k = elim (Bool-cases (str_eq s w)) [
  | inr e ↦ e
  | inl e ↦
      let f : is_number s ≡ is_number w = ap is_number ((eq_iff s w).0 e) in ground (arith, f, h, k)
]

pub plain : (s : String) → IsNumeral s → is_part s ≡ true
unfolding is_part is_number
plain s (n, e) =
    let k : is_number s ≡ true = ap is_number e ∙ is_number-show n in
    let d = digits-unreserved (codes s) (ground (arith, k)) in
    ground (arith, not_that s "" k refl, not_that s "." k refl, not_that s ".." k refl, d)

pub numeral : (s : String) → IsNumeral s → is_number s ≡ true
numeral s (n, e) = ap is_number e ∙ is_number-show n

pub slashed : (w r : String) → ("/" <> w <> "/") <> r ≡ "/" <> w <> "/" <> r
slashed w r = append_assoc "/" (w <> "/") r ∙ ap (λ t. "/" <> t) (append_assoc w "/" r)

pub given : (s : String) → is_part s ≡ true → str_eq s "" ≡ false
unfolding is_part
given s h = ground arith

pub under :
    (s w r : String) (ps : List String)
    → AreParts (s <> "/" <> w <> "/" <> r) ps
    → AreParts (s <> ("/" <> w <> "/") <> r) ps
under s w r ps h = subst (λ t. AreParts (s <> t) ps) (sym (slashed w r)) h

pub parts_4 :
    (s t u v : String)
    → is_part s ≡ true
    → is_part t ≡ true
    → is_part u ≡ true
    → is_part v ≡ true
    → AreParts (s <> "/" <> t <> "/" <> u <> "/" <> v) (s ∷ t ∷ u ∷ v ∷ [])
parts_4 s t u v hs ht hu hv =
    before s (t <> "/" <> u <> "/" <> v) (t ∷ u ∷ v ∷ []) hs (parts_3 t u v ht hu hv)
