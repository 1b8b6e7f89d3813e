-- ===== src/Backend/Waterfall/Attributes.antt =====
-- `_safe_attributes` of the backend's trace_waterfall.py, on what the worker's leaves.
use cloud_sre_ai_agent.Prelude.{
  ◌≡◌, refl, sym, ap, subst, ℕ, Bool, List, [], ◌∷◌, inl, inr, Bool-cases, some, Option-cases, map,
  ◌==◌, arith, keep,
}
use cloud_sre_ai_agent.Backend.Alerts.Json.{Text}
use cloud_sre_ai_agent.Worker.Waterfall.Attributes.{Attribute, Checks, is_safe, safe_attributes}
use cloud_sre_ai_agent.Worker.Waterfall.{
  Span, InputTrace, CandidateTrace, find_span, normalized, pick, truncate, selected_span_ids,
  validated_candidate,
}
use cloud_sre_ai_agent.Worker.Waterfall.Stored.{validated_candidate-PassedChecks}
use cloud_sre_ai_agent.Backend.Waterfall.{keeps_attribute, reread_attributes}

-- The backend's rules accept exactly what the worker's accept.
pub keeps_attribute_iff_is_safe :
    (c : Checks) (service operation : Text) (a : Attribute)
    → keeps_attribute c service operation a ≡ is_safe c service operation a
unfolding keeps_attribute is_safe
keeps_attribute_iff_is_safe c service operation a = ground arith

keep-keep :
    (p : Attribute → Bool) (q : Attribute → Bool) (attrs : List Attribute)
    → ((a : Attribute) → q a ≡ p a)
    → keep q (keep p attrs) ≡ keep p attrs
keep-keep p q [] h = refl
keep-keep p q (a ∷ attrs) h = elim (Bool-cases (p a)) [
  | inl t ↦ ground (arith, t, h a, keep-keep p q attrs h)
  | inr t ↦ ground (arith, t, keep-keep p q attrs h)
]

-- What `StoredTraceSpan` makes of a span.
abbrev pub reread : Checks → Span → Span
reread c s = record s {
  attributes = reread_attributes c s.service_name s.operation_name s.attributes;
}

reread-normalized : (c : Checks) (s : Span) → reread c (normalized c s) ≡ normalized c s
unfolding reread_attributes safe_attributes
reread-normalized c s =
    ap (λ attrs. record s { attributes = attrs })
      (keep-keep (is_safe c s.service_name s.operation_name)
        (keeps_attribute c s.service_name s.operation_name) s.attributes
        (keeps_attribute_iff_is_safe c s.service_name s.operation_name))

reread_found :
    (c : Checks) (spans : List Span) (k : ℕ) (s : Span)
    → find_span k (map (normalized c) spans) ≡ some s
    → reread c s ≡ s
unfolding find_span
reread_found c [] k s e = cc
reread_found c (x ∷ ss) k s e = elim (Bool-cases (x.span_id == k)) [
  | inl t ↦
      let same : some (normalized c x) ≡ some s = ground (arith, e, t) in
      let back : normalized c x ≡ s = cc in subst (λ z. reread c z ≡ z) back (reread-normalized c x)
  | inr t ↦ reread_found c ss k s (ground (arith, e, t))
]

reread-pick :
    (c : Checks) (spans : List Span) (ks : List ℕ)
    → map (reread c) (pick (map (normalized c) spans) ks) ≡ pick (map (normalized c) spans) ks
unfolding pick
reread-pick c spans [] = refl
reread-pick c spans (k ∷ ks) =
    let ih = reread-pick c spans ks in
    elim (Option-cases (find_span k (map (normalized c) spans))) [
      | inl e ↦ ground (arith, e, ih)
      | inr (s, e) ↦ ground (arith, e, ih, reread_found c spans k s e)
    ]

-- The backend's filter of attributes changes no span of what the worker stores of a trace.
pub stored_attributes_kept :
    (k : Checks) (t : InputTrace) (c : CandidateTrace) (max_spans : ℕ)
    → validated_candidate k t ≡ some c
    → map (reread k) (truncate c max_spans).spans ≡ (truncate c max_spans).spans
unfolding truncate
stored_attributes_kept k t c limit e =
    let v = validated_candidate-PassedChecks k t c e in
    subst
      (λ spans.
        map (reread k) (pick spans (selected_span_ids c limit))
        ≡ pick spans (selected_span_ids c limit))
      (sym v.same_spans) (reread-pick k t.spans (selected_span_ids c limit))
