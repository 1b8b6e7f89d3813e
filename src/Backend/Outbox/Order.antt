-- ===== src/Backend/Outbox/Order.antt =====
-- The order in which publish_events.py takes events: `ORDER BY available_at, created_at, id LIMIT`.
use mathlib.Core.List.{Perm}
use mathlib.Core.List.Perm
use cloud_sre_ai_agent.Prelude.{
  ℕ, zero, suc, ◌≡◌, refl, ◌⊎◌, inl, inr, Bool, true, false, List, [], ◌∷◌, ◌++◌, arith, length,
  take, drop, keep, take-append-drop, Bool-cases, ap,
}
use cloud_sre_ai_agent.Backend.Outbox.{
  Event, Status, before, insert_event, sort_events, is_selected, select_events,
}

-- Every element of the list satisfies the predicate.
abbrev pub All {ℓ κ} : {A : Type ℓ} → (A → Type κ) → List A → Type κ
All P [] = Unit
All P (x ∷ xs) = P x × All P xs

module _ {J : Type 0} where
  -- `x` does not come after `y`.
  abbrev pub NotAfter : Event J → Event J → Type 0
  NotAfter x y = before y x ≡ false

  abbrev pub IsSorted : List (Event J) → Type 0
  IsSorted [] = Unit {0}
  IsSorted (x ∷ xs) = All (NotAfter x) xs × IsSorted xs

  before-NotAfter : (x y : Event J) → before x y ≡ true → NotAfter x y
  unfolding before
  before-NotAfter x y h = ground arith

  NotAfter-trans : (x y z : Event J) → NotAfter x y → NotAfter y z → NotAfter x z
  unfolding before
  NotAfter-trans x y z h k = ground arith

  All-NotAfter-trans :
      (x y : Event J) (xs : List (Event J))
      → NotAfter x y
      → All (NotAfter y) xs
      → All (NotAfter x) xs
  All-NotAfter-trans x y [] h a = tt
  All-NotAfter-trans x y (z ∷ zs) h a =
      (NotAfter-trans x y z h a.0, All-NotAfter-trans x y zs h a.1)

  pub All-insert_event :
      (P : Event J → Type 0) (e : Event J) (xs : List (Event J))
      → P e
      → All P xs
      → All P (insert_event e xs)
  unfolding insert_event
  All-insert_event P e [] p a = (p, tt)
  All-insert_event P e (x ∷ xs) p a = elim (Bool-cases (before x e)) [
    | inl first ↦ rw first (a.0, All-insert_event P e xs p a.1)
    | inr after ↦ rw after (p, a)
  ]

  insert_event-IsSorted :
      (e : Event J) (xs : List (Event J)) → IsSorted xs → IsSorted (insert_event e xs)
  unfolding insert_event
  insert_event-IsSorted e [] s = (tt, tt)
  insert_event-IsSorted e (x ∷ xs) s = elim (Bool-cases (before x e)) [
    | inl first ↦ rw first (
      All-insert_event (NotAfter x) e xs (before-NotAfter x e first) s.0,
      insert_event-IsSorted e xs s.1,
    )
    | inr after ↦ rw after ((after, All-NotAfter-trans e x xs after s.0), s)
  ]

  sort_events-IsSorted : (xs : List (Event J)) → IsSorted (sort_events xs)
  unfolding sort_events
  sort_events-IsSorted [] = tt
  sort_events-IsSorted (x ∷ xs) = insert_event-IsSorted x _ (sort_events-IsSorted xs)

  insert_event-perm : (e : Event J) (xs : List (Event J)) → Perm (insert_event e xs) (e ∷ xs)
  unfolding insert_event
  insert_event-perm e [] = Perm.refl _
  insert_event-perm e (x ∷ xs) = elim (Bool-cases (before x e)) [
    | inl first ↦ rw first (Perm.trans (Perm.cons x (insert_event-perm e xs)) (Perm.swap e x xs))
    | inr after ↦ rw after (Perm.refl _)
  ]

  sort_events-perm : (xs : List (Event J)) → Perm (sort_events xs) xs
  unfolding sort_events
  sort_events-perm [] = Perm.refl _
  sort_events-perm (x ∷ xs) = Perm.trans (insert_event-perm x _) (Perm.cons x (sort_events-perm xs))

  -- Every element of the first list is no later than every element of the second.
  abbrev pub NoneAfter : List (Event J) → List (Event J) → Type 0
  NoneAfter xs ys = All (λ x. All (NotAfter x) ys) xs

  All-drop : (P : Event J → Type 0) (n : ℕ) (xs : List (Event J)) → All P xs → All P (drop n xs)
  All-drop P zero xs a = a
  All-drop P (suc n) [] a = tt
  All-drop P (suc n) (x ∷ xs) a = All-drop P n xs a.1

  take-drop-NoneAfter :
      (n : ℕ) (xs : List (Event J)) → IsSorted xs → NoneAfter (take n xs) (drop n xs)
  take-drop-NoneAfter zero xs s = tt
  take-drop-NoneAfter (suc n) [] s = tt
  take-drop-NoneAfter (suc n) (x ∷ xs) s =
      (All-drop (NotAfter x) n xs s.0, take-drop-NoneAfter n xs s.1)

  full_or_all : (n : ℕ) (xs : List (Event J)) → (drop n xs ≡ []) ⊎ (length (take n xs) ≡ n)
  full_or_all zero xs = inr refl
  full_or_all (suc n) [] = inl refl
  full_or_all (suc n) (x ∷ xs) = elim (full_or_all n xs) [ inl e ↦ inl e | inr e ↦ inr (ap suc e) ]

  -- A batch takes the eligible events that come first: the selected events and some rest are
  -- together a permutation of the events with the status, no `published_at` and no foreign lock;
  -- no selected event comes after one of the rest by (available_at, created_at, id); and either
  -- nothing is left out, or exactly `limit` events are selected.
  pub select_events_first :
      (status : Status) (limit : ℕ) (locked : ℕ → Bool) (events : List (Event J))
      → (rest : List (Event J)) × Perm
          (select_events status limit locked events ++ rest)
          (keep (is_selected status locked) events)
        × NoneAfter (select_events status limit locked events) rest
        × ((rest ≡ []) ⊎ (length (select_events status limit locked events) ≡ limit))
  unfolding select_events
  select_events_first status limit locked events =
      let eligible = keep (is_selected status locked) events in
      let sorted = sort_events eligible in
      (
        drop limit sorted,
        rw (take-append-drop limit sorted) (sort_events-perm eligible),
        take-drop-NoneAfter limit sorted (sort_events-IsSorted eligible),
        full_or_all limit sorted,
      )
