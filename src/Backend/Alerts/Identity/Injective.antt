-- ===== src/Backend/Alerts/Identity/Injective.antt =====
-- What make_incident_identity_v2 of identity.py tells apart. Of SHA-256 only that it has no collision
-- on the two inputs at hand is assumed.
use cloud_sre_ai_agent.Prelude.{
  ◌≡◌, ◌↔◌, refl, sym, ap, ◌∙◌, ℕ, false, Option, none, List, [], ◌∷◌, arith,
}
use cloud_sre_ai_agent.Prelude.Text.{codes}
use cloud_sre_ai_agent.Backend.Alerts.Json.{Text, strip, is_empty}
use cloud_sre_ai_agent.Backend.Alerts.Identity.{
  encode, strip_or_empty, identity_errors, identity_parts, make_incident_identity_v2,
}
use cloud_sre_ai_agent.Backend.Alerts.Identity.Encode.{AreParts, encode-injective}

no_error :
    (f a p : Text)
    → identity_errors f a p ≡ []
    → (is_empty f ≡ false) × (is_empty a ≡ false) × (is_empty p ≡ false)
unfolding identity_errors
no_error f a p e = ground arith

valid_parts :
    (s f a p : Text)
    → identity_errors f a p ≡ []
    → identity_parts s f a p ≡ codes "2" ∷ s ∷ f ∷ a ∷ []
unfolding identity_parts
valid_parts s f a p e = let h = no_error f a p e in ground arith

four-injective :
    (c : Text) (s f a t g b : Text)
    → c ∷ s ∷ f ∷ a ∷ [] ≡ c ∷ t ∷ g ∷ b ∷ []
    → (s ≡ t) × (f ≡ g) × (a ≡ b)
four-injective c s f a t g b e = ground arith

four-cong :
    (c : Text) (s f a t g b : Text)
    → (s ≡ t) × (f ≡ g) × (a ≡ b)
    → c ∷ s ∷ f ∷ a ∷ [] ≡ c ∷ t ∷ g ∷ b ∷ []
four-cong c s f a t g b (x, y, z) = cc

-- Two alerts with a folder, a name and a fingerprint, whose texts are Unicode with encodings below
-- 2^32 bytes and where SHA-256 has no collision on the two inputs, have one incident key exactly
-- when their sources, their stripped folders and their stripped names are the same.
pub same_incident :
    (sha256 : List ℕ → Text) (s t : Text) (f g a b : Option Text) (p q : Text)
    → ((make_incident_identity_v2 sha256 s f a p).key
          ≡ (make_incident_identity_v2 sha256 t g b q).key
        → encode (make_incident_identity_v2 sha256 s f a p).parts
          ≡ encode (make_incident_identity_v2 sha256 t g b q).parts)
    → AreParts (make_incident_identity_v2 sha256 s f a p).parts
    → AreParts (make_incident_identity_v2 sha256 t g b q).parts
    → (make_incident_identity_v2 sha256 s f a p).errors ≡ []
    → (make_incident_identity_v2 sha256 t g b q).errors ≡ []
    → ((make_incident_identity_v2 sha256 s f a p).key
        ≡ (make_incident_identity_v2 sha256 t g b q).key)
      ↔ ((s ≡ t) × (strip_or_empty f ≡ strip_or_empty g) × (strip_or_empty a ≡ strip_or_empty b))
unfolding make_incident_identity_v2
same_incident sha256 s t f g a b p q free wi wj ei ej =
    let x = valid_parts s (strip_or_empty f) (strip_or_empty a) (strip p) ei in
    let y = valid_parts t (strip_or_empty g) (strip_or_empty b) (strip q) ej in
    (
      λ e.
          four-injective (codes "2") s (strip_or_empty f) (strip_or_empty a) t (strip_or_empty g)
            (strip_or_empty b) (sym x ∙ encode-injective _ _ wi wj (free e) ∙ y),
      λ h. ap (λ z. sha256 (encode z)) (x ∙ four-cong (codes "2") _ _ _ _ _ _ h ∙ sym y),
    )

invalid_parts :
    (s p : Text)
    → is_empty p ≡ false
    → identity_parts s [] [] p ≡ codes "2" ∷ s ∷ codes "__invalid__" ∷ p ∷ []
unfolding identity_parts
invalid_parts s p h = rw h

-- An alert with a fingerprint and without folder and name shares its incident key with every valid
-- alert of the source whose folder is "__invalid__" and whose stripped name is that fingerprint.
pub reserved_folder_collides :
    (sha256 : List ℕ → Text) (s : Text) (f a : Option Text) (p q : Text)
    → strip_or_empty f ≡ codes "__invalid__"
    → strip_or_empty a ≡ strip p
    → is_empty (strip p) ≡ false
    → (make_incident_identity_v2 sha256 s f a q).errors ≡ []
    → (make_incident_identity_v2 sha256 s none none p).key
      ≡ (make_incident_identity_v2 sha256 s f a q).key
unfolding make_incident_identity_v2
reserved_folder_collides sha256 s f a p q ef ea ne ei =
    let x = valid_parts s (strip_or_empty f) (strip_or_empty a) (strip q) ei in
    let y = invalid_parts s (strip p) ne in
    ap (λ z. sha256 (encode z)) (y ∙ sym (x ∙ four-cong (codes "2") _ _ _ _ _ _ (refl, ef, ea)))
