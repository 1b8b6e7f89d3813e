-- ===== src/Backend/Alerts/Identity/Encode.antt =====
-- `_encode` of identity.py is injective: the length of each part stands before it.
use cloud_sre_ai_agent.Prelude.{
  sym, ◌≢◌, ℕ, ◌^◌, ◌<◌, ◌≡◌, refl, List, [], ◌∷◌, ◌++◌, arith, length,
}
use mathlib.Core.Path.{ap₂}
use cloud_sre_ai_agent.Backend.Alerts.Json.{Text}
use cloud_sre_ai_agent.Backend.Alerts.Identity.{utf8, to_bytes4, encode}
use cloud_sre_ai_agent.Backend.Alerts.Identity.Utf8.{IsText, utf8-injective}

append_cancel :
    (xs ys us vs : List ℕ) → length xs ≡ length ys → xs ++ us ≡ ys ++ vs → (xs ≡ ys) × (us ≡ vs)
append_cancel [] [] us vs n e = (refl, e)
append_cancel [] (y ∷ ys) us vs n e = absurd (omega arith)
append_cancel (x ∷ xs) [] us vs n e = absurd (omega arith)
append_cancel (x ∷ xs) (y ∷ ys) us vs n e =
    let t : xs ++ us ≡ ys ++ vs = ground (arith) in
    let h = append_cancel xs ys us vs (omega arith) t in
    (ap₂ (λ a b. a ∷ b) (ground arith) h.0, h.1)

to_bytes4-injective :
    (m n : ℕ) (xs ys : List ℕ)
    → m < 2 ^ 32
    → n < 2 ^ 32
    → to_bytes4 m ++ xs ≡ to_bytes4 n ++ ys
    → (m ≡ n) × (xs ≡ ys)
unfolding to_bytes4
to_bytes4-injective m n xs ys hm hn e = ground arith

-- Texts of characters whose encoding is shorter than 2^32 bytes, so that `to_bytes` takes its length.
abbrev pub AreParts : List Text → Type 0
AreParts [] = Unit {0}
AreParts (p ∷ ps) = IsText p × (length (utf8 p) < 2 ^ 32) × AreParts ps

part-injective :
    (p q : Text) (us vs : List ℕ)
    → IsText p
    → IsText q
    → length (utf8 p) < 2 ^ 32
    → length (utf8 q) < 2 ^ 32
    → to_bytes4 (length (utf8 p)) ++ (utf8 p ++ us) ≡ to_bytes4 (length (utf8 q)) ++ (utf8 q ++ vs)
    → (p ≡ q) × (us ≡ vs)
part-injective p q us vs tp tq lp lq e =
    let h = to_bytes4-injective _ _ _ _ lp lq e in
    let g = append_cancel (utf8 p) (utf8 q) us vs h.0 h.1 in (utf8-injective p q tp tq g.0, g.1)

part-ne-nil : (p : Text) (us : List ℕ) → to_bytes4 (length (utf8 p)) ++ us ≢ []
unfolding to_bytes4
part-ne-nil p us e = ground arith

pub encode-injective :
    (ps qs : List Text) → AreParts ps → AreParts qs → encode ps ≡ encode qs → ps ≡ qs
unfolding encode
encode-injective [] [] hp hq e = refl
encode-injective [] (q ∷ qs) hp hq e = absurd (part-ne-nil q (utf8 q ++ encode qs) (sym e))
encode-injective (p ∷ ps) [] hp hq e = absurd (part-ne-nil p (utf8 p ++ encode ps) e)
encode-injective (p ∷ ps) (q ∷ qs) hp hq e =
    let h = part-injective p q (encode ps) (encode qs) hp.0 hq.0 hp.1 hq.1 e in
    ap₂ (λ a b. a ∷ b) h.0 (encode-injective ps qs hp.2 hq.2 h.1)
