-- ===== src/Recalc/Graph/Relax.antt =====
-- The inner loop of Kahn's algorithm in closed form.
use mathlib.Core.List.{append-nil, append_assoc}
use autonomous_iq.Prelude.{
  ℕ, ◌-◌, ◌≡◌, refl, sym, Bool, true, false, ◌&&◌, List, [], ◌∷◌, ◌++◌, arith, if◌then◌else◌,
  filter, ◌==◌,
}
use autonomous_iq.Recalc.Coord.{CellCoord, coord_eq_iff, contains, distinct}
use autonomous_iq.Recalc.Graph.{Degrees, update, relax}

module _ (affected : List CellCoord) where
  -- Every affected cell of the list loses one, and no other cell does.
  pub degrees-relax :
      (ds : List CellCoord) (degrees : Degrees) (queue : List CellCoord) (x : CellCoord)
      → distinct ds ≡ true
      → (relax affected degrees queue ds).0 x
        ≡ (if contains affected x && contains ds x then degrees x - 1 else degrees x)
  unfolding relax
  degrees-relax [] degrees queue x h = ground arith
  degrees-relax (d ∷ ds) degrees queue x h = ground (
    arith,
    degrees-relax ds (update degrees d (degrees d - 1))
        (if degrees d == 1 then queue ++ d ∷ [] else queue) x,
    degrees-relax ds degrees queue x,
    coord_eq_iff d x,
  )

  abbrev pub turns_ready : Degrees → CellCoord → Bool
  turns_ready degrees d = contains affected d && degrees d == 1

  filter-turns_ready-update :
      (ds : List CellCoord) (degrees : Degrees) (d : CellCoord) (n : ℕ)
      → contains ds d ≡ false
      → filter (turns_ready (update degrees d n)) ds ≡ filter (turns_ready degrees) ds
  filter-turns_ready-update [] degrees d n h = refl
  filter-turns_ready-update (x ∷ ds) degrees d n h =
      ground (arith, filter-turns_ready-update ds degrees d n, coord_eq_iff x d, coord_eq_iff d x)

  -- The queue grows at its end by the cells that had one dependency left.
  pub queue-relax :
      (ds : List CellCoord) (degrees : Degrees) (queue : List CellCoord)
      → distinct ds ≡ true
      → (relax affected degrees queue ds).1 ≡ queue ++ filter (turns_ready degrees) ds
  unfolding relax
  queue-relax [] degrees queue h = sym (append-nil queue)
  queue-relax (d ∷ ds) degrees queue h = ground (
    arith,
    queue-relax ds (update degrees d (degrees d - 1))
        (if degrees d == 1 then queue ++ d ∷ [] else queue),
    queue-relax ds degrees queue,
    filter-turns_ready-update ds degrees d (degrees d - 1),
    append_assoc queue (d ∷ []) (filter (turns_ready degrees) ds),
  )
