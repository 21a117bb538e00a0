-- ===== src/Utils/Errors.antt =====
-- `formatError` of webapp-admin/src/components/Utils.js.
use text.Mathlib.TextLemmas.{append-eq-nil_iff, cons-ne-nil, cons-append}
use identity_vault.Common.{
  String, true, ◌≡◌, ◌≢◌, Option, none, some, arith, eq_iff, Bool-cases, inl, inr, ◌⊎◌, sym, ◌∙◌,
}
use identity_vault.Common.Text.{◌<>◌}
use identity_vault.Common.Value.{Value, str, truthy, prop, to_text}
use identity_vault.Messages.{Locale, messages}
use identity_vault.Utils.{is_set, or_empty, lookup, translate, format_error, with_cause}

-- A truthy message is translated to a truthy text.
pub truthy-translate :
    (lang : Locale) (m : Value) → truthy m ≡ true → truthy (translate lang m) ≡ true
unfolding translate
truthy-translate lang m h = elim (Bool-cases (is_set (lookup (to_text m) (messages lang)))) [
  | inl found ↦ rw found (kept (lookup (to_text m) (messages lang)) found)
  | inr missing ↦ rw missing h
]
  where
    kept : (o : Option String) → is_set o ≡ true → truthy (str (or_empty o)) ≡ true
    kept none e = cc
    kept (some s) e = e

str-truthy : (s : String) → s ≢ "" → truthy (str s) ≡ true
str-truthy s h = ground (arith, eq_iff s "")

truthy-with_cause : (m c : Value) → truthy (with_cause m c) ≡ true
truthy-with_cause m c = str-truthy _ nonempty
  where
    nonempty : to_text m <> ": " <> to_text c ≢ ""
    nonempty e =
        let rest = (append-eq-nil_iff {p = to_text m} {q = ": " <> to_text c}).0 e in
        absurd (cons-ne-nil ":" (" " <> to_text c) (sym (cons-append ":" " " (to_text c)) ∙ rest.1))

-- An answer that carries an error code, a subcode or a message is shown with a text that is not
-- empty, so that no such error goes unnoticed.
pub format_error_visible :
    (lang : Locale) (d : Value)
    → (truthy (prop "error_code" d) ≡ true)
      ⊎ (truthy (prop "error_subcode" d) ≡ true)
      ⊎ (truthy (prop "message" d) ≡ true)
    → truthy (format_error lang d) ≡ true
unfolding format_error
format_error_visible lang d h = elim (Bool-cases (truthy (prop "error_subcode" d))) [
  | inl sub ↦ rw sub (
      truthy-with_cause (translate lang (prop "error_code" d))
        (translate lang (prop "error_subcode" d)))
  | inr none_sub ↦ rw none_sub (elim (Bool-cases (truthy (prop "message" d))) [
    | inl msg ↦ rw msg (truthy-with_cause (translate lang (prop "error_code" d)) (prop "message" d))
    | inr none_msg ↦ rw none_msg (truthy-translate lang _ (ground arith))
  ])
]
