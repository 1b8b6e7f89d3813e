-- ===== src/Worker/Waterfall.antt =====
-- rca-worker/src/sre_rca_worker/domain/evidence/trace_waterfall.py, from the validated input on: the
-- tree of spans, its check, and the choice of the spans that are stored. A span id is a number, and
-- the numbers of a trace's ids are in the order of the texts. A float is an exact number of
-- thousandths. The score of a trace against the alert's issue is an argument.
pub mod Attributes
pub mod Tree
pub mod Sets
pub mod Selection
pub mod Truncate
pub mod Order
pub mod Preorder
pub mod Stored
pub mod Pick
pub mod Rank
use cloud_sre_ai_agent.Prelude.{
  ℕ, zero, suc, ◌+◌, ◌*◌, max, min, Bool, true, false, not, ◌&&◌, ◌||◌, Option, none, some, List,
  [], ◌∷◌, ◌++◌, map, ltb, ◌==◌, if◌then◌else◌, length, take, any, all, keep, is_some,
}
use cloud_sre_ai_agent.Backend.Alerts.Json.{Text}
use cloud_sre_ai_agent.Worker.Waterfall.Attributes.{Attribute, Checks, safe_attributes}

pub data SpanStatus : Type 0 where
  ok error unset : SpanStatus

pub data SpanKind : Type 0 where
  internal server client producer consumer : SpanKind

-- `_InputSpan` and `_NormalizedSpan`, which has the same fields
pub record Span : Type 0 where
  pub span_id : ℕ
  pub parent_span_id : Option ℕ
  pub service_name : Text
  pub operation_name : Text
  pub start_offset_ms : ℕ
  pub duration_ms : ℕ
  pub status : SpanStatus
  pub kind : SpanKind
  pub critical_path : Bool
  pub attributes : List Attribute

-- `_InputTrace`
pub record InputTrace : Type 0 where
  pub trace_id : ℕ
  pub started_at : ℕ
  pub latency_anomaly_score : ℕ
  pub duration_ms : Option ℕ
  pub spans : List Span

-- `_CandidateTrace`
pub record CandidateTrace : Type 0 where
  pub trace_id : ℕ
  pub started_at : ℕ
  pub latency_anomaly_score : ℕ
  pub duration_ms : ℕ
  pub root_span_id : ℕ
  pub spans : List Span

abbrev pub is_error : SpanStatus → Bool
is_error error = true
is_error _ = false

-- `span_by_id[...]`: `none` is a KeyError.
unfoldable pub find_span : ℕ → List Span → Option Span
find_span k [] = none
find_span k (s ∷ ss) = if s.span_id == k then some s else find_span k ss

abbrev pub parent_in : Option Span → Option ℕ
parent_in none = none
parent_in (some s) = s.parent_span_id

unfoldable pub parent_of : List Span → ℕ → Option ℕ
parent_of spans k = parent_in (find_span k spans)

abbrev pub elem : ℕ → List ℕ → Bool
elem k [] = false
elem k (x ∷ xs) = x == k || elem k xs

-- `set.add` and `set |`; a set is the list of its elements, each once.
unfoldable pub add : ℕ → List ℕ → List ℕ
add k xs = if elem k xs then xs else k ∷ xs

unfoldable pub union : List ℕ → List ℕ → List ℕ
unfolding add
union [] ys = ys
union (x ∷ xs) ys = add x (union xs ys)

abbrev pub ids : List Span → List ℕ
ids = map (λ s. s.span_id)

-- How the walk to the root ends in `_has_cycle`: at the root, at an id seen before, at an id that is
-- no key, or with the fuel.
pub data Walk : Type 0 where
  ends repeats lost out_of_fuel : Walk

unfoldable pub walk : ℕ → List Span → List ℕ → Option ℕ → Walk
walk fuel spans seen none = ends
walk zero spans seen (some k) = out_of_fuel
walk (suc fuel) spans seen (some k) =
    let next = walk fuel spans (k ∷ seen) (parent_of spans k) in
    if elem k seen then repeats else if is_some (find_span k spans) then next else lost

abbrev pub ends_well : Walk → Bool
ends_well ends = true
ends_well _ = false

-- `not _has_cycle(span_by_id)`; the walk from each span has fuel for every span and one more.
unfoldable pub acyclic : List Span → Bool
acyclic spans = all (λ s. ends_well (walk (length spans + 1) spans [] (some s.span_id))) spans

-- `if span.span_id in span_by_id: return None`
unfoldable pub distinct : List ℕ → Bool
distinct [] = true
distinct (x ∷ xs) = not (elem x xs) && distinct xs

abbrev pub is_root : Span → Bool
is_root s = not (is_some s.parent_span_id)

abbrev pub parent_known : List ℕ → Span → Bool
parent_known known s = elim s.parent_span_id [ none ↦ true | some p ↦ elem p known ]

abbrev pub span_end : Span → ℕ
span_end s = s.start_offset_ms + s.duration_ms

unfoldable pub last_end : List Span → ℕ
last_end [] = 0
last_end (s ∷ ss) = max (span_end s) (last_end ss)

abbrev pub or_default : Option ℕ → ℕ → ℕ
or_default none d = d
or_default (some n) d = n

abbrev pub one_ms : ℕ
one_ms = 1000

abbrev pub normalized : Checks → Span → Span
normalized c s = record s {
  attributes = safe_attributes c s.service_name s.operation_name s.attributes;
}

abbrev pub the_root : List Span → Option ℕ
the_root (r ∷ []) = some r.span_id
the_root _ = none

abbrev pub candidate_of : Checks → InputTrace → ℕ → ℕ → CandidateTrace
candidate_of c t duration root = record {
  trace_id = t.trace_id;
  started_at = t.started_at;
  latency_anomaly_score = t.latency_anomaly_score;
  duration_ms = duration;
  root_span_id = root;
  spans = map (normalized c) t.spans;
}

-- The checks of `_validated_candidate` on the tree and on the times.
unfoldable pub is_valid_trace : List Span → ℕ → Bool
is_valid_trace spans duration =
    distinct (ids spans)
    && all (parent_known (ids spans)) spans
    && acyclic spans
    && not (any (λ s. ltb (duration + one_ms) (span_end s)) spans)

-- `_validated_candidate`, given the only root
unfoldable pub rooted_candidate : Checks → InputTrace → ℕ → Option ℕ → Option CandidateTrace
rooted_candidate c t duration none = none
rooted_candidate c t duration (some root) =
    if is_valid_trace t.spans duration then some (candidate_of c t duration root) else none

-- `_validated_candidate`
unfoldable pub validated_candidate : Checks → InputTrace → Option CandidateTrace
validated_candidate c t =
    rooted_candidate c t (or_default t.duration_ms (last_end t.spans))
      (the_root (keep is_root t.spans))

-- The chain that the inner loop of `_ancestor_closure` adds, from the id to the root.
unfoldable pub chain : ℕ → List Span → ℕ → List ℕ
chain zero spans k = k ∷ []
chain (suc fuel) spans k = k ∷ elim (parent_of spans k) [ none ↦ [] | some p ↦ chain fuel spans p ]

unfoldable pub ancestor_closure : List Span → List ℕ → List ℕ
ancestor_closure spans [] = []
ancestor_closure spans (k ∷ ks) = union (chain (length spans) spans k) (ancestor_closure spans ks)

-- `_add_with_ancestors`
unfoldable pub add_with_ancestors : List Span → ℕ → ℕ → List ℕ → List ℕ
add_with_ancestors spans max_spans k selected =
    let more = union (chain (length spans) spans k) selected in
    if ltb max_spans (length more) then selected else more

abbrev pub start_of : Option Span → ℕ
start_of none = 0
start_of (some s) = s.start_offset_ms

-- `key=lambda span_id: (spans[span_id].start_offset_ms, span_id)`
unfoldable pub before : List Span → ℕ → ℕ → Bool
before spans j k =
    let s = start_of (find_span j spans) in
    let t = start_of (find_span k spans) in ltb s t || s == t && ltb j k

unfoldable pub insert_id : List Span → ℕ → List ℕ → List ℕ
insert_id spans k [] = k ∷ []
insert_id spans k (x ∷ xs) =
    let rest = insert_id spans k xs in if before spans x k then x ∷ rest else k ∷ x ∷ xs

-- `_stable_span_ids`
unfoldable pub stable_span_ids : List Span → List ℕ → List ℕ
unfolding insert_id
stable_span_ids spans [] = []
stable_span_ids spans (k ∷ ks) = insert_id spans k (stable_span_ids spans ks)

abbrev pub same_id : Option ℕ → Option ℕ → Bool
same_id none none = true
same_id (some j) (some k) = j == k
same_id _ _ = false

-- `children.get(parent, [])` of `_topological_order`
unfoldable pub children : List Span → List ℕ → Option ℕ → List ℕ
children spans selected parent =
    stable_span_ids spans (keep (λ k. same_id (parent_of spans k) parent) selected)

-- The loop of `visit` over the children.
unfoldable pub visit_all : (ℕ → List ℕ) → List ℕ → List ℕ
visit_all f [] = []
visit_all f (k ∷ ks) = f k ++ visit_all f ks

-- `visit`; the fuel bounds the depth.
unfoldable pub visit : ℕ → List Span → List ℕ → ℕ → List ℕ
unfolding visit_all
visit zero spans selected k = k ∷ []
visit (suc fuel) spans selected k =
    k ∷ visit_all (visit fuel spans selected) (children spans selected (some k))

-- `_topological_order`
unfoldable pub topological_order : List Span → List ℕ → List ℕ
topological_order spans selected =
    visit_all (visit (length spans) spans selected) (children spans selected none)

abbrev pub fold {ℓ} : {A B : Type ℓ} → (A → B → B) → B → List A → B
fold f b [] = b
fold f b (x ∷ xs) = fold f (f x b) xs

abbrev pub critical_ids : List Span → List ℕ
critical_ids spans = ids (keep (λ s. s.critical_path) spans)

abbrev pub error_ids : List Span → List ℕ
error_ids spans = ids (keep (λ s. is_error s.status) spans)

unfoldable pub required_ids : CandidateTrace → List ℕ
required_ids c =
    add c.root_span_id (ancestor_closure c.spans (union (critical_ids c.spans) (error_ids c.spans)))

-- The ids that `_truncate` selects.
unfoldable pub selected_ids : CandidateTrace → ℕ → List ℕ
selected_ids c max_spans =
    if ltb max_spans (length (required_ids c))
    then take max_spans (
        topological_order c.spans
          (add c.root_span_id (ancestor_closure c.spans (critical_ids c.spans))))
    else fold (add_with_ancestors c.spans max_spans) (required_ids c)
        (stable_span_ids c.spans (ids c.spans))

unfoldable pub selected_span_ids : CandidateTrace → ℕ → List ℕ
selected_span_ids c max_spans = topological_order c.spans (selected_ids c max_spans)

-- `spans[span_id] for span_id in selected_span_ids`; no id is missing there.
unfoldable pub pick : List Span → List ℕ → List Span
pick spans [] = []
pick spans (k ∷ ks) = elim (find_span k spans) [ none ↦ pick spans ks | some s ↦ s ∷ pick spans ks ]

-- `_has_error` of `_CandidateTrace`
unfoldable pub has_error : CandidateTrace → Bool
has_error c =
    elim (find_span c.root_span_id c.spans) [ none ↦ false | some r ↦ is_error r.status ]
    || any (λ s. is_error s.status && s.critical_path) c.spans

-- `_representative_score` in units of 10^-12.
unfoldable pub representative_score : CandidateTrace → ℕ
representative_score c =
    (if has_error c then 1000000000000 else 0)
    + (c.latency_anomaly_score * 1000000000 + c.duration_ms)

-- What `to_storage_dict` of `_SelectedTrace` writes.
pub record StoredTrace : Type 0 where
  pub schema_version : ℕ
  pub trace_id : ℕ
  pub root_service_name : Text
  pub root_operation_name : Text
  pub started_at : ℕ
  pub duration_ms : ℕ
  pub span_count : ℕ
  pub representative_score : ℕ
  pub truncated : Bool
  pub spans : List Span

abbrev pub service_of : Option Span → Text
service_of none = []
service_of (some s) = s.service_name

abbrev pub operation_of : Option Span → Text
operation_of none = []
operation_of (some s) = s.operation_name

-- `_truncate(candidate, max_spans=...).to_storage_dict()`
unfoldable pub truncate : CandidateTrace → ℕ → StoredTrace
truncate c max_spans =
    let chosen = selected_span_ids c max_spans in
    let root = find_span c.root_span_id c.spans in
    record {
      schema_version = 1;
      trace_id = c.trace_id;
      root_service_name = service_of root;
      root_operation_name = operation_of root;
      started_at = c.started_at;
      duration_ms = c.duration_ms;
      span_count = length c.spans;
      representative_score = representative_score c;
      truncated = ltb (length chosen) (length c.spans);
      spans = pick c.spans chosen;
    }

-- The key of the sort in normalize_trace_evidence, given the score against the issue: whether the
-- first trace comes before the second, which it does not if they tie.
unfoldable pub ranks_above : (CandidateTrace → ℕ) → CandidateTrace → CandidateTrace → Bool
ranks_above score a b =
    let e = has_error a in
    let f = has_error b in
    e && not f
    || (e && f || not e && not f)
      && (ltb b.latency_anomaly_score a.latency_anomaly_score
          || b.latency_anomaly_score == a.latency_anomaly_score
            && (ltb (score b) (score a)
                || score b == score a
                  && (ltb b.duration_ms a.duration_ms
                      || b.duration_ms == a.duration_ms && ltb b.trace_id a.trace_id)))

-- `ranked[0]`: of traces that tie, the first.
unfoldable pub best_of :
    (CandidateTrace → ℕ) → CandidateTrace → List CandidateTrace → CandidateTrace
best_of score c [] = c
best_of score c (d ∷ ds) = best_of score (if ranks_above score d c then d else c) ds

unfoldable pub candidates : Checks → List InputTrace → List CandidateTrace
candidates k [] = []
candidates k (t ∷ ts) = elim (validated_candidate k t) [
  | none ↦ candidates k ts
  | some c ↦ c ∷ candidates k ts
]

abbrev pub choose : (CandidateTrace → ℕ) → ℕ → List CandidateTrace → Option StoredTrace
choose score max_spans [] = none
choose score max_spans (c ∷ cs) = some (truncate (best_of score c cs) (min max_spans 100))

-- `normalize_trace_evidence`, from the traces that the input schema accepts on.
unfoldable pub normalize_trace_evidence :
    Checks → (CandidateTrace → ℕ) → List InputTrace → ℕ → Option StoredTrace
normalize_trace_evidence k score traces max_spans =
    if ltb max_spans 1 then none else choose score max_spans (candidates k traces)
