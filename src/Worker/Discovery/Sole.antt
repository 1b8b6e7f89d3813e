-- ===== src/Worker/Discovery/Sole.antt =====
-- The only element of a list that has a property: `len(matches) != 1` of the capability resolver.
use Prim.{tt}
use cloud_sre_ai_agent.Prelude.{
  ◌≡◌, ◌↔◌, ◌⊎◌, refl, ap, Bool, true, false, some, List, [], ◌∷◌, keep, inl, inr, Bool-cases,
  arith,
}
use cloud_sre_ai_agent.Worker.Discovery.{sole_of}

module _ {A : Type 0} (P : A → Type 0) where
  abbrev pub NoneOf : List A → Type 0
  NoneOf [] = Unit
  NoneOf (x ∷ xs) = (¬ P x) × NoneOf xs

  -- The value stands in the list and has the property, and nothing before or after it has.
  abbrev pub IsSole : List A → A → Type 0
  IsSole [] a = ⊥
  IsSole (x ∷ xs) a = (P x × (x ≡ a) × NoneOf xs) ⊎ ((¬ P x) × IsSole xs a)

-- A test that decides a property picks its only element.
module _ {A : Type 0} (p : A → Bool) (P : A → Type 0) (decides : (x : A) → (p x ≡ true) ↔ P x) where
  not_kept : (x : A) → p x ≡ false → ¬ P x
  not_kept x f h = let t = (decides x).1 h in cc

  keep-none : (xs : List A) → NoneOf P xs → keep p xs ≡ []
  keep-none [] h = refl
  keep-none (x ∷ xs) h = elim (Bool-cases (p x)) [
    | inl t ↦ absurd (h.0 ((decides x).0 t))
    | inr t ↦ rw (t) (keep-none xs h.1)
  ]

  none-keep : (xs : List A) → keep p xs ≡ [] → NoneOf P xs
  none-keep [] h = tt
  none-keep (x ∷ xs) h = elim (Bool-cases (p x)) [
    | inl t ↦ absurd (ground (arith, h, t))
    | inr t ↦ (not_kept x t, none-keep xs (ground (arith, h, t)))
  ]

  sole_of-one : (x a : A) (ys : List A) → sole_of (x ∷ ys) ≡ some a → (x ≡ a) × (ys ≡ [])
  sole_of-one x a [] e = (cc, refl)
  sole_of-one x a (y ∷ ys) e = cc

  pub sole_of-IsSole : (xs : List A) (a : A) → sole_of (keep p xs) ≡ some a → IsSole P xs a
  sole_of-IsSole [] a e = cc
  sole_of-IsSole (x ∷ xs) a e = elim (Bool-cases (p x)) [
    | inl t ↦
        let s = sole_of-one x a (keep p xs) (ground (arith, e, t)) in
        inl ((decides x).0 t, s.0, none-keep xs s.1)
    | inr t ↦ inr (not_kept x t, sole_of-IsSole xs a (ground (arith, e, t)))
  ]

  pub IsSole-sole_of : (xs : List A) (a : A) → IsSole P xs a → sole_of (keep p xs) ≡ some a
  IsSole-sole_of [] a h = absurd h
  IsSole-sole_of (x ∷ xs) a (inl (h, same, rest)) =
      let t = (decides x).1 h in rw (t, keep-none xs rest) (ap some same)
  IsSole-sole_of (x ∷ xs) a (inr (h, rest)) = elim (Bool-cases (p x)) [
    | inl t ↦ absurd (h ((decides x).0 t))
    | inr t ↦ rw (t) (IsSole-sole_of xs a rest)
  ]
