-- ===== src/Backend/Alerts/Identity/Utf8.antt =====
-- The UTF-8 encoding that identity.py hashes can be read back: no two texts have the same bytes.
use mathlib.Core.Path.{ap₂}
use cloud_sre_ai_agent.Prelude.{sym, ◌≢◌, ℕ, ◌<◌, ◌≡◌, refl, List, [], ◌∷◌, ◌++◌, arith}
use cloud_sre_ai_agent.Backend.Alerts.Json.{Text}
use cloud_sre_ai_agent.Backend.Alerts.Identity.{utf8_char, utf8}

-- A character is below 0x110000.
abbrev pub IsText : Text → Type 0
IsText [] = Unit {0}
IsText (c ∷ cs) = (c < 0x110000) × IsText cs

utf8_char-injective :
    (c d : ℕ) (xs ys : List ℕ)
    → c < 0x110000
    → d < 0x110000
    → utf8_char c ++ xs ≡ utf8_char d ++ ys
    → (c ≡ d) × (xs ≡ ys)
unfolding utf8_char
utf8_char-injective c d xs ys hc hd e = ground arith

utf8_char-ne-nil : (c : ℕ) (xs : List ℕ) → utf8_char c ++ xs ≢ []
unfolding utf8_char
utf8_char-ne-nil c xs e = ground arith

pub utf8-injective : (s t : Text) → IsText s → IsText t → utf8 s ≡ utf8 t → s ≡ t
unfolding utf8
utf8-injective [] [] hs ht e = refl
utf8-injective [] (d ∷ t) hs ht e = absurd (utf8_char-ne-nil d (utf8 t) (sym e))
utf8-injective (c ∷ s) [] hs ht e = absurd (utf8_char-ne-nil c (utf8 s) e)
utf8-injective (c ∷ s) (d ∷ t) hs ht e =
    let h = utf8_char-injective c d (utf8 s) (utf8 t) hs.0 ht.0 e in
    ap₂ (λ a b. a ∷ b) h.0 (utf8-injective s t hs.1 ht.1 h.1)
