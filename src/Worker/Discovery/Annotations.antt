-- ===== src/Worker/Discovery/Annotations.antt =====
-- The annotations that `CapabilityResolver` wants of a tool, against a description of their own.
use cloud_sre_ai_agent.Prelude.{
  ◌≡◌, ◌↔◌, ◌⊎◌, refl, subst, true, false, Option, none, some, List, [], ◌∷◌, any, inl, inr,
  Bool-cases, is_some, arith,
}
use cloud_sre_ai_agent.Prelude.Text.{codes}
use cloud_sre_ai_agent.Backend.Alerts.Json.{
  Text, text_eq, text_eq_refl, text_eq_sound, Json, null, bool, number, text, array, object, Fields,
  end, field, get,
}
use cloud_sre_ai_agent.Worker.Discovery.{
  Matching, schema_hash, Entry, Tool, is_true, is_false_or_missing, known_annotations, is_known,
  has_known_keys, is_match,
}

abbrev pub IsOneOf : Text → List Text → Type 0
IsOneOf key [] = ⊥
IsOneOf key (k ∷ ks) = (k ≡ key) ⊎ IsOneOf key ks

-- The five annotations that the code knows
abbrev pub IsKnown : Text → Type 0
IsKnown key = IsOneOf key (
    codes "title"
    ∷ codes "readOnlyHint"
    ∷ codes "destructiveHint"
    ∷ codes "idempotentHint"
    ∷ codes "openWorldHint"
    ∷ [])

-- The tool carries readOnlyHint true, no destructiveHint but false, and known annotations alone.
abbrev pub OnlyReads : Tool → Type 0
OnlyReads t =
    (get (codes "readOnlyHint") t.annotations ≡ some (bool true))
    × ((get (codes "destructiveHint") t.annotations ≡ none)
        ⊎ (get (codes "destructiveHint") t.annotations ≡ some (bool false)))
    × ((key : Text) → is_some (get key t.annotations) ≡ true → IsKnown key)

-- The tool only reads, and fits the entry by its name and its schema.
abbrev pub Fits : Matching → Entry → Tool → Type 0
Fits m e t =
    (m.fullmatch e.tool_name_pattern t.name ≡ true)
    × OnlyReads t
    × (schema_hash m t.input_schema ≡ schema_hash m e.input_schema)

any-IsOneOf : (key : Text) (ks : List Text) → (any (λ k. text_eq k key) ks ≡ true) ↔ IsOneOf key ks
any-IsOneOf key [] = (λ h. cc, λ h. absurd h)
any-IsOneOf key (k ∷ ks) =
    let ih = any-IsOneOf key ks in
    (
      λ h. elim (Bool-cases (text_eq k key)) [
        | inl t ↦ inl (text_eq_sound k key t)
        | inr t ↦ inr (ih.0 (ground (arith, h, t)))
      ],
      λ h. elim h [
        | inl e ↦
            let t : text_eq k key ≡ true = subst (λ z. text_eq k z ≡ true) e (text_eq_refl k) in
            ground (arith, t)
        | inr r ↦ let t = ih.1 r in ground (arith, t)
      ],
    )

is_known-IsKnown : (key : Text) → (is_known key ≡ true) ↔ IsKnown key
unfolding is_known
is_known-IsKnown key = any-IsOneOf key known_annotations

-- The keys are known exactly if each key with a value is.
known_keys_have :
    (fs : Fields)
    → has_known_keys fs ≡ true
    → (key : Text) → is_some (get key fs) ≡ true
    → is_known key ≡ true
unfolding has_known_keys get
known_keys_have end h key s = cc
known_keys_have (field j v fs) h key s = elim (Bool-cases (text_eq j key)) [
  | inl t ↦ subst (λ z. is_known z ≡ true) (text_eq_sound j key t) (ground (arith, h))
  | inr t ↦ known_keys_have fs (ground (arith, h)) key (ground (arith, s, t))
]

have_known_keys :
    (fs : Fields)
    → ((key : Text) → is_some (get key fs) ≡ true → is_known key ≡ true)
    → has_known_keys fs ≡ true
unfolding has_known_keys get
have_known_keys end h = refl
have_known_keys (field j v fs) h =
    let first = h j (ground (arith, text_eq_refl j)) in
    let rest = have_known_keys fs (λ key s. elim (Bool-cases (text_eq j key)) [
      | inl t ↦ h key (ground (arith, t))
      | inr t ↦ h key (ground (arith, s, t))
    ]) in
    ground (arith, first, rest)

is_true_iff : (o : Option Json) → (is_true o ≡ true) ↔ (o ≡ some (bool true))
is_true_iff none = (λ h. cc, λ h. cc)
is_true_iff (some null) = (λ h. cc, λ h. cc)
is_true_iff (some (bool true)) = (λ h. refl, λ h. refl)
is_true_iff (some (bool false)) = (λ h. cc, λ h. cc)
is_true_iff (some (number n)) = (λ h. cc, λ h. cc)
is_true_iff (some (text t)) = (λ h. cc, λ h. cc)
is_true_iff (some (array xs)) = (λ h. cc, λ h. cc)
is_true_iff (some (object fs)) = (λ h. cc, λ h. cc)

is_false_or_missing_iff :
    (o : Option Json) → (is_false_or_missing o ≡ true) ↔ ((o ≡ none) ⊎ (o ≡ some (bool false)))
is_false_or_missing_iff none = (λ h. inl refl, λ h. refl)
is_false_or_missing_iff (some null) = (λ h. cc, λ h. elim h [ inl e ↦ cc | inr e ↦ cc ])
is_false_or_missing_iff (some (bool true)) = (λ h. cc, λ h. elim h [ inl e ↦ cc | inr e ↦ cc ])
is_false_or_missing_iff (some (bool false)) = (λ h. inr refl, λ h. refl)
is_false_or_missing_iff (some (number n)) = (λ h. cc, λ h. elim h [ inl e ↦ cc | inr e ↦ cc ])
is_false_or_missing_iff (some (text t)) = (λ h. cc, λ h. elim h [ inl e ↦ cc | inr e ↦ cc ])
is_false_or_missing_iff (some (array xs)) = (λ h. cc, λ h. elim h [ inl e ↦ cc | inr e ↦ cc ])
is_false_or_missing_iff (some (object fs)) = (λ h. cc, λ h. elim h [ inl e ↦ cc | inr e ↦ cc ])

pub is_match-Fits : (m : Matching) (e : Entry) (t : Tool) → (is_match m e t ≡ true) ↔ Fits m e t
unfolding is_match
is_match-Fits m e t =
    let hint = is_true_iff (get (codes "readOnlyHint") t.annotations) in
    let harm = is_false_or_missing_iff (get (codes "destructiveHint") t.annotations) in
    (
      λ h. (
        ground (arith, h),
        (
          hint.0 (ground (arith, h)),
          harm.0 (ground (arith, h)),
          λ key s.
              (is_known-IsKnown key).0 (known_keys_have t.annotations (ground (arith, h)) key s),
        ),
        text_eq_sound _ _ (ground (arith, h)),
      ),
      λ f.
          let a = f.0 in
          let b = hint.1 f.1.0 in
          let c = harm.1 f.1.1 in
          let d = have_known_keys t.annotations (λ key s. (is_known-IsKnown key).1 (f.1.2 key s)) in
          let same : text_eq (schema_hash m t.input_schema) (schema_hash m e.input_schema) ≡ true =
            subst (λ z. text_eq (schema_hash m t.input_schema) z ≡ true) f.2 (text_eq_refl _) in
          ground (arith, a, b, c, d, same),
    )
