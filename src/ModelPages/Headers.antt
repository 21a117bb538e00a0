-- ===== src/ModelPages/Headers.antt =====
-- The text of the header `classic` in webapp-admin/src/components/ModelAssertion.js.
use identity_vault.Common.{String, ◌≡◌, ◌⊎◌, inl, inr, arith}
use identity_vault.Common.Text.{is_word}
use identity_vault.ModelPages.Assertion.{classic_of}

classic_of_cases :
    (v : String) → (classic_of v ≡ "") ⊎ (classic_of v ≡ "false") ⊎ (classic_of v ≡ "true")
unfolding classic_of
classic_of_cases v = ground arith

classic_of_fixed : (w : String) → (w ≡ "") ⊎ (w ≡ "false") ⊎ (w ≡ "true") → classic_of w ≡ w
unfolding classic_of is_word
classic_of_fixed w (inl e) = rw e
classic_of_fixed w (inr (inl e)) = rw e
classic_of_fixed w (inr (inr e)) = rw e

-- The header is left empty, "false" or "true", and to leave the field once more changes nothing.
pub classic_of_idempotent :
    (v : String)
    → ((classic_of v ≡ "") ⊎ (classic_of v ≡ "false") ⊎ (classic_of v ≡ "true"))
      × (classic_of (classic_of v) ≡ classic_of v)
classic_of_idempotent v = (classic_of_cases v, classic_of_fixed (classic_of v) (classic_of_cases v))
