-- ===== src/Recalc/Worklist.antt =====
-- The two `while` loops of libs/recalc_engine/dependency_graph.py that walk the graph share one
-- shape: take a cell, skip it if it was seen, else mark it and queue its unseen neighbours. This
-- file has that shape with its termination and its correctness; Graph instantiates it.
pub mod Correct
use autonomous_iq.Prelude.{
  ℕ, zero, suc, ◌+◌, ◌≤◌, ◌<◌, ◌≡◌, refl, ap, ◌↔◌, ◌⊎◌, inl, inr, Bool, true, false, not, ◌||◌,
  ◌&&◌, List, [], ◌∷◌, ◌++◌, reverse, Option, none, some, arith, if◌then◌else◌, filter, length,
  length-append, length-filter-le, Bool-cases,
}
use autonomous_iq.Recalc.Coord.{
  CellCoord, coord_eq, coord_eq_iff, coord_eq_refl, contains, contains-append, contains-filter,
}

-- Where the loop puts what it found: behind the queue (a deque) or on top of it (a stack).
pub data Order : Type 0 where
  fifo lifo : Order

-- `for x in new: stack.append(x)`, with the top of the stack in front.
abbrev pub push_all : List CellCoord → List CellCoord → List CellCoord
push_all [] stack = stack
push_all (x ∷ xs) stack = push_all xs (x ∷ stack)

abbrev pub enqueue : Order → List CellCoord → List CellCoord → List CellCoord
enqueue fifo queue new = queue ++ new
enqueue lifo queue new = push_all new queue

-- The neighbours of `c` that are not seen.
abbrev pub unseen : List CellCoord → List CellCoord → List CellCoord
unseen seen cs = filter (λ d. not (contains seen d)) cs

module _ (next : CellCoord → List CellCoord) (order : Order) where
  -- `none` is a loop that is not done when the fuel is used up.
  unfoldable pub walk : ℕ → List CellCoord → List CellCoord → Option (List CellCoord)
  walk zero seen [] = some seen
  walk zero seen (c ∷ queue) = none
  walk (suc fuel) seen [] = some seen
  walk (suc fuel) seen (c ∷ queue) = elim (contains seen c) [
    | true ↦ walk fuel seen queue
    | false ↦ walk fuel (c ∷ seen) (enqueue order queue (unseen (c ∷ seen) (next c)))
  ]

-- The cells that some path of `next` leads to from a cell of `start`.
pub data Reach (next : CellCoord → List CellCoord) (start : List CellCoord)
    : CellCoord → Type 0 where
  here : {c : CellCoord} → contains start c ≡ true → Reach next start c
  step : {c d : CellCoord} → Reach next start c → contains (next c) d ≡ true → Reach next start d

-- The edges out of the cells of a universe that are not seen yet.
abbrev pub weight : (CellCoord → List CellCoord) → List CellCoord → List CellCoord → ℕ
weight next [] seen = 0
weight next (u ∷ us) seen = (if contains seen u then 0 else length (next u)) + weight next us seen

contains-push_all :
    (xs ys : List CellCoord) (c : CellCoord)
    → contains (push_all xs ys) c ≡ (contains xs c || contains ys c)
contains-push_all [] ys c = refl
contains-push_all (x ∷ xs) ys c = ground (arith, contains-push_all xs (x ∷ ys) c)

length-push_all : (xs ys : List CellCoord) → length (push_all xs ys) ≡ length xs + length ys
length-push_all [] ys = omega arith
length-push_all (x ∷ xs) ys = omega (arith, length-push_all xs (x ∷ ys))

contains-enqueue :
    (o : Order) (queue new : List CellCoord) (c : CellCoord)
    → contains (enqueue o queue new) c ≡ (contains new c || contains queue c)
contains-enqueue fifo queue new c = ground (arith, contains-append queue new c)
contains-enqueue lifo queue new c = contains-push_all new queue c

length-enqueue :
    (o : Order) (queue new : List CellCoord)
    → length (enqueue o queue new) ≡ length queue + length new
length-enqueue fifo queue new = length-append queue new
length-enqueue lifo queue new = omega (arith, length-push_all new queue)

module _ (next : CellCoord → List CellCoord) where
  weight_mono :
      (us seen : List CellCoord) (c : CellCoord) → weight next us (c ∷ seen) ≤ weight next us seen
  weight_mono [] seen c = omega arith
  weight_mono (u ∷ us) seen c = ground (arith, weight_mono us seen c)

  -- Marking a cell of the universe removes its edges from the weight.
  weight_drop :
      (us seen : List CellCoord) (c : CellCoord)
      → contains us c ≡ true
      → contains seen c ≡ false
      → weight next us (c ∷ seen) + length (next c) ≤ weight next us seen
  weight_drop [] seen c h k = cc
  weight_drop (u ∷ us) seen c h k =
      ground
        (arith, weight_drop us seen c, weight_mono us seen c, coord_eq_iff u c, coord_eq_iff c u)

-- A universe holds every cell with a neighbour.
abbrev pub Covers : (CellCoord → List CellCoord) → List CellCoord → Type 0
Covers next us = (c : CellCoord) → contains us c ≡ false → next c ≡ []

module _ (next : CellCoord → List CellCoord) (order : Order) (us : List CellCoord)
    (covers : Covers next us) where
  weight_step :
      (seen : List CellCoord) (c : CellCoord)
      → contains seen c ≡ false
      → weight next us (c ∷ seen) + length (next c) ≤ weight next us seen
  weight_step seen c k = elim (Bool-cases (contains us c)) [
    | inl h ↦ weight_drop next us seen c h k
    | inr h ↦ omega (arith, ap length (covers c h), weight_mono next us seen c)
  ]

  -- Fuel for the cells of the queue and the edges not yet followed is enough.
  pub walk_total :
      (fuel : ℕ) (seen queue : List CellCoord)
      → length queue + weight next us seen ≤ fuel
      → (result : List CellCoord) × (walk next order fuel seen queue ≡ some result)
  unfolding walk
  walk_total zero seen [] h = (seen, refl)
  walk_total zero seen (c ∷ queue) h = absurd (omega arith)
  walk_total (suc fuel) seen [] h = (seen, refl)
  walk_total (suc fuel) seen (c ∷ queue) h = elim (Bool-cases (contains seen c)) [
    | inl old ↦
        let (result, e) = walk_total fuel seen queue (omega arith) in (result, rw (old, walk) e)
    | inr new ↦
        let fresh = unseen (c ∷ seen) (next c) in
        let (result, e) = walk_total fuel (c ∷ seen) (enqueue order queue fresh) (
          omega (
            arith,
            length-enqueue order queue fresh,
            length-filter-le (λ d. not (contains (c ∷ seen) d)) (next c),
            weight_step seen c new,
          )) in
        (result, rw (new, walk) e)
  ]
