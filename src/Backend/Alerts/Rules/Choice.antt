-- ===== src/Backend/Alerts/Rules/Choice.antt =====
-- `SafeRuleEngine.normalize` of domain/alerts/normalization.py: the rule that it applies.
use cloud_sre_ai_agent.Prelude.{
  ◌≡◌, refl, sym, ap, subst, ◌∙◌, ℕ, min, ◌≤◌, Bool, true, false, ◌&&◌, Option, none, some, List,
  [], ◌∷◌, all, keep, leb, inl, inr, Bool-cases, arith, ◌==◌, if-true, if-false,
}
use cloud_sre_ai_agent.Backend.Alerts.Json.{Text}
use cloud_sre_ai_agent.Backend.Alerts.Labels.{Provider, gcp, aws, ProviderDecision}
use cloud_sre_ai_agent.Backend.Alerts.Rules.{
  BaseAlert, Rule, NormalizedResource, normalized, matches, resource_of, same_provider,
  best_priority, with_resource, apply_rule, choose_rule, has_errors, normalize_alert,
}

keep_three :
    (p q s : Rule → Bool) (rs : List Rule)
    → keep p (keep q (keep s rs)) ≡ keep (λ r. s r && q r && p r) rs
keep_three p q s [] = refl
keep_three p q s (r ∷ rs) = ground (arith, keep_three p q s rs)

best_priority-le :
    (m : ℕ) (rs : List Rule)
    → (best_priority m rs ≤ m) × (all (λ r. leb (best_priority m rs) r.priority) rs ≡ true)
unfolding best_priority
best_priority-le m [] = (omega arith, refl)
best_priority-le m (r ∷ rs) =
    let ih = best_priority-le (min m r.priority) rs in
    (omega (arith, ih.0), ground (arith, ih.0, ih.1))

-- Among rules of at least the priority `m`, those of `m` are those of at most `m`.
keep_least :
    (m : ℕ) (rs : List Rule)
    → all (λ r. leb m r.priority) rs ≡ true
    → keep (λ r. r.priority == m) rs ≡ keep (λ r. leb r.priority m) rs
keep_least m [] h = refl
keep_least m (r ∷ rs) h = ground (arith, h, keep_least m rs (ground (arith, h)))

head_test : (p : Rule → Bool) (rs : List Rule) (r : Rule) → keep p rs ≡ r ∷ [] → p r ≡ true
head_test p [] r e = cc
head_test p (q ∷ rs) r e = elim (Bool-cases (p q)) [
  | inl t ↦
      let f : q ∷ keep p rs ≡ r ∷ [] = ground (arith, e, t) in
      let same : q ≡ r = cc in subst (λ z. p z ≡ true) same t
  | inr t ↦ head_test p rs r (ground (arith, e, t))
]

same_provider_sound : (p q : Provider) → same_provider p q ≡ true → p ≡ q
same_provider_sound gcp gcp h = refl
same_provider_sound gcp aws h = cc
same_provider_sound aws gcp h = cc
same_provider_sound aws aws h = refl

-- What the application of a list of best rules to a resource says of them.
abbrev Applied : BaseAlert → ProviderDecision → List Rule → NormalizedResource → ℕ → ℕ → Type 0
Applied a d best x k v =
    (r : Rule) × (best ≡ r ∷ [])
    × (r.output.provider ≡ d.provider)
    × (resource_of r.output a ≡ some x)
    × (r.rule_id ≡ k)
    × (r.rule_version ≡ v)

with_resource-Applied :
    (r : Rule) (o : Option NormalizedResource) (x : NormalizedResource) (k v : ℕ)
    → with_resource r o ≡ normalized x k v
    → (o ≡ some x) × (r.rule_id ≡ k) × (r.rule_version ≡ v)
with_resource-Applied r none x k v e = cc
with_resource-Applied r (some y) x k v e = (cc, cc, cc)

apply_rule-Applied :
    (a : BaseAlert) (d : ProviderDecision) (best : List Rule) (x : NormalizedResource) (k v : ℕ)
    → apply_rule a d best ≡ normalized x k v
    → Applied a d best x k v
apply_rule-Applied a d [] x k v e = cc
apply_rule-Applied a d (r ∷ q ∷ rs) x k v e = cc
apply_rule-Applied a d (r ∷ []) x k v e =
    elim (Bool-cases (same_provider r.output.provider d.provider)) [
      | inl t ↦
          let w =
            with_resource-Applied r (resource_of r.output a) x k v
              (sym (if-true (same_provider r.output.provider d.provider) _ _ t) ∙ e) in
          (r, refl, same_provider_sound r.output.provider d.provider t, w.0, w.1, w.2)
      | inr t ↦
          let never = sym (if-false (same_provider r.output.provider d.provider) _ _ t) ∙ e in cc
    ]

least_alone :
    (found : List Rule) (m : ℕ) (r : Rule)
    → all (λ q. leb m q.priority) found ≡ true
    → keep (λ q. q.priority == m) found ≡ r ∷ []
    → keep (λ q. leb q.priority r.priority) found ≡ r ∷ []
least_alone found m r low e =
    let t = head_test (λ q. q.priority == m) found r e in
    let same : r.priority ≡ m = ground (arith, t) in
    ap (λ n. keep (λ q. leb q.priority n) found) same ∙ sym (keep_least m found low) ∙ e

choose_rule-Applied :
    (a : BaseAlert) (d : ProviderDecision) (found : List Rule) (x : NormalizedResource) (k v : ℕ)
    → choose_rule a d found ≡ normalized x k v
    → (r : Rule) × (keep (λ q. leb q.priority r.priority) found ≡ r ∷ [])
      × (r.output.provider ≡ d.provider)
      × (resource_of r.output a ≡ some x)
      × (r.rule_id ≡ k)
      × (r.rule_version ≡ v)
choose_rule-Applied a d [] x k v e = cc
choose_rule-Applied a d (r ∷ rs) x k v e =
    let m = best_priority r.priority rs in
    let low = best_priority-le r.priority rs in
    let w = apply_rule-Applied a d (keep (λ q. q.priority == m) (r ∷ rs)) x k v e in
    (w.0, least_alone (r ∷ rs) m w.0 (ground (arith, low.0, low.1)) w.1, w.2, w.3, w.4, w.5)

-- An alert is normalized only if its provider was decided without errors, and by a rule that is the
-- only enabled rule of its priority or a better one that matches, for the decided provider: the
-- resource is what the rule's paths give, with the rule's id and version.
pub normalize_alert_unique :
    (fullmatch : Text → Text → Bool) (rules : List Rule) (a : BaseAlert) (d : ProviderDecision)
    (x : NormalizedResource) (k v : ℕ)
    → normalize_alert fullmatch rules a d ≡ normalized x k v
    → (has_errors d.errors ≡ false)
      × ((r : Rule) × (keep
              (λ q. q.enabled && matches fullmatch a q && leb q.priority r.priority)
              rules
            ≡ r ∷ [])
          × (r.output.provider ≡ d.provider)
          × (resource_of r.output a ≡ some x)
          × (r.rule_id ≡ k)
          × (r.rule_version ≡ v))
unfolding normalize_alert
normalize_alert_unique fullmatch rules a d x k v e = elim (Bool-cases (has_errors d.errors)) [
  | inl t ↦ let never = sym (if-true (has_errors d.errors) _ _ t) ∙ e in cc
  | inr t ↦
      let w =
        choose_rule-Applied a d (keep (matches fullmatch a) (keep (λ r. r.enabled) rules)) x k v
          (sym (if-false (has_errors d.errors) _ _ t) ∙ e) in
      let r = w.0 in
      let fuse =
        keep_three (λ q. leb q.priority r.priority) (matches fullmatch a) (λ z. z.enabled) rules in
      (t, (r, sym fuse ∙ w.1, w.2, w.3, w.4, w.5))
]
