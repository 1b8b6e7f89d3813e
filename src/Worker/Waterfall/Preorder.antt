-- ===== src/Worker/Waterfall/Preorder.antt =====
-- `_topological_order` on a tree: it lists exactly the selected spans, each once and after its parent.
use cloud_sre_ai_agent.Prelude.{
  ◌≡◌, ◌↔◌, refl, sym, subst, ◌∙◌, ℕ, zero, suc, ◌+◌, true, ◌||◌, Option, none, some, List, [], ◌∷◌,
  ◌++◌, inl, inr, Bool-cases, arith, length, take, ◌==◌,
}
use cloud_sre_ai_agent.Worker.Waterfall.{
  Span, parent_of, elem, distinct, children, visit_all, visit, topological_order,
}
use cloud_sre_ai_agent.Worker.Waterfall.Tree.{Rooted, top, below, Rooted-Known, Rooted-unique}
use cloud_sre_ai_agent.Worker.Waterfall.Sets.{distinct-keep, distinct-stable_span_ids}
use cloud_sre_ai_agent.Worker.Waterfall.Order.{
  IsTree, child-selected, selected-child, elem-visit_all, visit_all-elem, distinct-visit_all, climb,
  Down, here, step, visit-Down, Down-visit, Down-climb, Down-selected,
}

some_injective : (a b : ℕ) → some a ≡ some b → a ≡ b
some_injective a b e = cc

distinct-children :
    (spans : List Span) (selected : List ℕ) (o : Option ℕ)
    → distinct selected ≡ true
    → distinct (children spans selected o) ≡ true
unfolding children
distinct-children spans selected o h = distinct-stable_span_ids spans _ (distinct-keep _ selected h)

-- Each id of the list has its parent before it, or among the ids seen.
abbrev pub ParentsFirst : List Span → List ℕ → List ℕ → Type 0
ParentsFirst spans seen [] = Unit {0}
ParentsFirst spans seen (x ∷ xs) =
    ((p : ℕ) → parent_of spans x ≡ some p → elem p seen ≡ true) × ParentsFirst spans (x ∷ seen) xs

ParentsFirst-weaken :
    (spans : List Span) (seen more xs : List ℕ)
    → ((k : ℕ) → elem k seen ≡ true → elem k more ≡ true)
    → ParentsFirst spans seen xs
    → ParentsFirst spans more xs
ParentsFirst-weaken spans seen more [] sub h = tt
ParentsFirst-weaken spans seen more (x ∷ xs) sub h = (
  λ p e. sub p (h.0 p e),
  ParentsFirst-weaken spans (x ∷ seen) (x ∷ more) xs (λ k u. ground (arith, u, sub k)) h.1,
)

ParentsFirst-append :
    (spans : List Span) (seen xs ys : List ℕ)
    → ParentsFirst spans seen xs
    → ParentsFirst spans seen ys
    → ParentsFirst spans seen (xs ++ ys)
ParentsFirst-append spans seen [] ys h k = k
ParentsFirst-append spans seen (x ∷ xs) ys h k = (
  h.0,
  ParentsFirst-append spans (x ∷ seen) xs ys h.1
      (ParentsFirst-weaken spans seen (x ∷ seen) ys (λ j u. ground (arith, u)) k),
)

pub ParentsFirst-take :
    (spans : List Span) (seen xs : List ℕ) (n : ℕ)
    → ParentsFirst spans seen xs
    → ParentsFirst spans seen (take n xs)
ParentsFirst-take spans seen xs zero h = tt
ParentsFirst-take spans seen [] (suc n) h = tt
ParentsFirst-take spans seen (x ∷ xs) (suc n) h = (h.0, ParentsFirst-take spans (x ∷ seen) xs n h.1)

pub ParentsFirst-closed :
    (spans : List Span) (seen xs : List ℕ) (k p : ℕ)
    → ParentsFirst spans seen xs
    → elem k xs ≡ true
    → parent_of spans k ≡ some p
    → (elem p xs || elem p seen) ≡ true
ParentsFirst-closed spans seen [] k p h m e = cc
ParentsFirst-closed spans seen (x ∷ xs) k p h m e = elim (Bool-cases (x == k)) [
  | inl t ↦
      let same : x ≡ k = ground arith in
      ground (arith, h.0 p (subst (λ z. parent_of spans z ≡ some p) (sym same) e))
  | inr t ↦ ground (arith, ParentsFirst-closed spans (x ∷ seen) xs k p h.1 (ground arith) e)
]

visit_all-ParentsFirst :
    (spans : List Span) (f : ℕ → List ℕ) (seen ks : List ℕ)
    → ((k : ℕ) → elem k ks ≡ true → ParentsFirst spans seen (f k))
    → ParentsFirst spans seen (visit_all f ks)
unfolding visit_all
visit_all-ParentsFirst spans f seen [] h = tt
visit_all-ParentsFirst spans f seen (k ∷ ks) h =
    ParentsFirst-append spans seen (f k) (visit_all f ks) (h k (ground arith))
      (visit_all-ParentsFirst spans f seen ks (λ j u. h j (ground (arith, u))))

visit-ParentsFirst :
    (f : ℕ) (spans : List Span) (selected : List ℕ) (y : ℕ) (seen : List ℕ)
    → ((p : ℕ) → parent_of spans y ≡ some p → elem p seen ≡ true)
    → ParentsFirst spans seen (visit f spans selected y)
unfolding visit
visit-ParentsFirst zero spans selected y seen h = (h, tt)
visit-ParentsFirst (suc f) spans selected y seen h = (
  h,
  visit_all-ParentsFirst spans (visit f spans selected) (y ∷ seen)
      (children spans selected (some y))
      λ k u. visit-ParentsFirst f spans selected k (y ∷ seen) λ p e.
        let c = child-selected spans selected (some y) k u in
        let same : y ≡ p = some_injective y p (sym c.0 ∙ e) in ground (arith, same),
)

pub topological_order-ParentsFirst :
    (spans : List Span) (selected : List ℕ)
    → ParentsFirst spans [] (topological_order spans selected)
unfolding topological_order
topological_order-ParentsFirst spans selected =
    visit_all-ParentsFirst spans (visit (length spans) spans selected) []
      (children spans selected none)
      λ k u.
        visit-ParentsFirst (length spans) spans selected k []
          λ p e. let c = child-selected spans selected none k u in cc

module _ {spans : List Span} {selected : List ℕ} (tree : IsTree spans selected) where
  -- A descendant is as many steps farther from the root.
  Down-Rooted :
      (x y k n : ℕ) → Down spans selected x y k → Rooted spans y n → Rooted spans x (k + n)
  Down-Rooted x y zero n here r = subst (Rooted spans x) (omega arith) r
  Down-Rooted x y (suc k) n (step {c = c} m d) r =
      let p = child-selected spans selected (some y) c m in
      let u = Rooted-Known spans c _ (tree.rooted c p.1).1 in
      subst (Rooted spans x) (omega arith) (Down-Rooted x c k (suc n) d (below u p.0 r))

  -- Two spans at one distance from the root have no descendant in common.
  visits_apart :
      (f x a b n : ℕ)
      → Rooted spans a n
      → Rooted spans b n
      → elem x (visit f spans selected a) ≡ true
      → elem x (visit f spans selected b) ≡ true
      → a ≡ b
  visits_apart f x a b n ra rb ha hb =
      let da = visit-Down f x a ha in
      let db = visit-Down f x b hb in
      let e =
        Rooted-unique spans x (da.0 + n) (db.0 + n) (Down-Rooted x a da.0 n da.1 ra)
          (Down-Rooted x b db.0 n db.1 rb) in
      let k : da.0 ≡ db.0 = omega (arith, e) in
      some_injective a b (
        sym (Down-climb x a da.0 da.1)
        ∙ subst (λ z. climb spans z x ≡ some b) (sym k) (Down-climb x b db.0 db.1))

  child-Rooted :
      (y n c : ℕ)
      → Rooted spans y n
      → elem c (children spans selected (some y)) ≡ true
      → Rooted spans c (suc n)
  child-Rooted y n c r m =
      let p = child-selected spans selected (some y) c m in
      below (Rooted-Known spans c _ (tree.rooted c p.1).1) p.0 r

  distinct-visit : (f y n : ℕ) → Rooted spans y n → distinct (visit f spans selected y) ≡ true
  unfolding visit distinct
  distinct-visit zero y n r = refl
  distinct-visit (suc f) y n r =
      let kids = children spans selected (some y) in
      let rest =
        distinct-visit_all (visit f spans selected) kids
          (distinct-children spans selected (some y) tree.once)
          (λ k m. distinct-visit f k (suc n) (child-Rooted y n k r m))
          (λ a b x ma mb ha hb.
            visits_apart f x a b (suc n) (child-Rooted y n a r ma) (child-Rooted y n b r mb) ha
              hb) in
      elim (Bool-cases (elem y (visit_all (visit f spans selected) kids))) [
        | inl t ↦
            let m = elem-visit_all (visit f spans selected) kids y t in
            let d = visit-Down f y m.0 m.2 in
            let e =
              Rooted-unique spans y n (d.0 + suc n) r
                (Down-Rooted y m.0 d.0 (suc n) d.1 (child-Rooted y n m.0 r m.1)) in
            absurd (omega (arith, e))
        | inr t ↦ ground (arith, t, rest)
      ]

  root-Rooted : (k : ℕ) → elem k (children spans selected none) ≡ true → Rooted spans k zero
  root-Rooted k m =
      let c = child-selected spans selected none k m in
      top (Rooted-Known spans k _ (tree.rooted k c.1).1) c.0

  pub distinct-topological_order : distinct (topological_order spans selected) ≡ true
  unfolding topological_order
  distinct-topological_order =
      distinct-visit_all (visit (length spans) spans selected) (children spans selected none)
        (distinct-children spans selected none tree.once)
        (λ k m. distinct-visit (length spans) k zero (root-Rooted k m))
        λ a b x ma mb ha hb.
          visits_apart (length spans) x a b zero (root-Rooted a ma) (root-Rooted b mb) ha hb

  -- From a selected span with descendant `z` the way leads up to a selected root.
  to_root :
      (z x k n : ℕ)
      → elem x selected ≡ true
      → Rooted spans x n
      → Down spans selected z x k
      → (r : ℕ) × (elem r (children spans selected none) ≡ true) × Down spans selected z r (n + k)
  to_root z x k zero m (top u e) d =
      (x, selected-child spans selected none x e m, subst (Down spans selected z x) (omega arith) d)
  to_root z x k (suc n) m (below {p = p} u e r) d =
      let up =
        to_root z p (suc k) n (tree.closed x p m e) r
          (step (selected-child spans selected (some p) x e m) d) in
      (up.0, up.1, subst (Down spans selected z up.0) (omega arith) up.2)

  pub elem-topological_order :
      (k : ℕ) → (elem k (topological_order spans selected) ≡ true) ↔ (elem k selected ≡ true)
  unfolding topological_order
  elem-topological_order k = (
    λ h.
        let m =
          elem-visit_all (visit (length spans) spans selected) (children spans selected none) k h in
        let d = visit-Down (length spans) k m.0 m.2 in
        Down-selected k m.0 d.0 d.1 (child-selected spans selected none m.0 m.1).1,
    λ h.
        let r = tree.rooted k h in
        let up = to_root k k zero r.0 h r.1 here in
        visit_all-elem (visit (length spans) spans selected) (children spans selected none) up.0 k
          up.1 (Down-visit (length spans) k up.0 (r.0 + zero) up.2 (omega (arith, r.2))),
  )
