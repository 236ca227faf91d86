-- ===== src/Recalc/Worklist/Correct.antt =====
-- The cells that a worklist loop visits against reachability.
use autonomous_iq.Prelude.{
  ℕ, zero, suc, ◌≡◌, ◌↔◌, ◌⊎◌, inl, inr, true, not, ◌||◌, List, [], ◌∷◌, some, arith, Bool-cases,
}
use autonomous_iq.Recalc.Coord.{
  distinct, CellCoord, coord_eq_iff, coord_eq_refl, contains, contains-filter,
}
use autonomous_iq.Recalc.Worklist.{
  Order, enqueue, unseen, walk, Reach, here, step, contains-enqueue,
}

-- Marked or queued.
abbrev Known : List CellCoord → List CellCoord → CellCoord → Type 0
Known seen queue c = (contains seen c || contains queue c) ≡ true

module _ (next : CellCoord → List CellCoord) (start : List CellCoord) where
  record Inv (seen queue : List CellCoord) : Type 0 where
    sound : (c : CellCoord) → Known seen queue c → Reach next start c
    closed :
        (c d : CellCoord) → contains seen c ≡ true → contains (next c) d ≡ true → Known seen queue d
    starts : (c : CellCoord) → contains start c ≡ true → Known seen queue c

  Inv-start : Inv [] start
  Inv-start = record { sound = λ c h. here h; closed = λ c d h k. cc; starts = λ c h. h }

  Inv-skip :
      (seen queue : List CellCoord) (c : CellCoord)
      → contains seen c ≡ true
      → Inv seen (c ∷ queue)
      → Inv seen queue
  Inv-skip seen queue c old inv = record {
    sound = λ x h. inv.sound x (ground arith);
    closed = λ x d h k. ground (arith, inv.closed x d, coord_eq_iff c d);
    starts = λ x h. ground (arith, inv.starts x, coord_eq_iff c x);
  }

  module _ (order : Order) where
    Known-mark :
        (seen queue : List CellCoord) (c x : CellCoord)
        → Known (c ∷ seen) (enqueue order queue (unseen (c ∷ seen) (next c))) x
          ↔ (Known seen (c ∷ queue) x ⊎ (contains (next c) x ≡ true))
    Known-mark seen queue c x = ground (
      arith,
      contains-enqueue order queue (unseen (c ∷ seen) (next c)) x,
      contains-filter (λ d. not (contains (c ∷ seen) d)) (next c) x,
    )

    Inv-mark :
        (seen queue : List CellCoord) (c : CellCoord)
        → Inv seen (c ∷ queue)
        → Inv (c ∷ seen) (enqueue order queue (unseen (c ∷ seen) (next c)))
    Inv-mark seen queue c inv = record {
      sound = λ x h. elim ((Known-mark seen queue c x).0 h) [
        | inl old ↦ inv.sound x old
        | inr new ↦ step (inv.sound c (ground (arith, coord_eq_refl c))) new
      ];
      closed = λ x d h k.
          (Known-mark seen queue c d).1 (ground (arith, inv.closed x d, coord_eq_iff c x));
      starts = λ x h. (Known-mark seen queue c x).1 (inl (inv.starts x h));
    }

    complete :
        (seen : List CellCoord)
        → Inv seen []
        → {c : CellCoord} → Reach next start c
        → contains seen c ≡ true
    complete seen inv (here {c} h) = ground (arith, inv.starts c h)
    complete seen inv (step {c} {d} r k) = ground (arith, inv.closed c d (complete seen inv r) k)

    walk_iff :
        (fuel : ℕ) (seen queue result : List CellCoord)
        → Inv seen queue
        → walk next order fuel seen queue ≡ some result
        → (c : CellCoord) → (contains result c ≡ true) ↔ Reach next start c
    unfolding walk
    walk_iff zero seen [] result inv e c = ground (arith, inv.sound c, complete seen inv {c = c})
    walk_iff zero seen (x ∷ queue) result inv e c = cc
    walk_iff (suc fuel) seen [] result inv e c =
        ground (arith, inv.sound c, complete seen inv {c = c})
    walk_iff (suc fuel) seen (x ∷ queue) result inv e c = elim (Bool-cases (contains seen x)) [
      | inl old ↦
          walk_iff fuel seen queue result (Inv-skip seen queue x old inv) (rw (old, walk) at e) c
      | inr new ↦
          walk_iff fuel (x ∷ seen) (enqueue order queue (unseen (x ∷ seen) (next x))) result
            (Inv-mark seen queue x inv) (rw (new, walk) at e) c
    ]

    -- What the loop returns holds exactly the cells reachable from its first queue.
    pub walk_correct :
        (fuel : ℕ) (result : List CellCoord)
        → walk next order fuel [] start ≡ some result
        → (c : CellCoord) → (contains result c ≡ true) ↔ Reach next start c
    walk_correct fuel result e c = walk_iff fuel [] start result Inv-start e c

module _ (next : CellCoord → List CellCoord) (order : Order) where
  -- The marked cells form a set.
  pub walk-distinct :
      (fuel : ℕ) (seen queue result : List CellCoord)
      → distinct seen ≡ true
      → walk next order fuel seen queue ≡ some result
      → distinct result ≡ true
  unfolding walk
  walk-distinct zero seen [] result h e = ground arith
  walk-distinct zero seen (x ∷ queue) result h e = cc
  walk-distinct (suc fuel) seen [] result h e = ground arith
  walk-distinct (suc fuel) seen (x ∷ queue) result h e = elim (Bool-cases (contains seen x)) [
    | inl old ↦ walk-distinct fuel seen queue result h (rw (old, walk) at e)
    | inr new ↦
        walk-distinct fuel (x ∷ seen) (enqueue order queue (unseen (x ∷ seen) (next x))) result
          (ground arith) (rw (new, walk) at e)
  ]
