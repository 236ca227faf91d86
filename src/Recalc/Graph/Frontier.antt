-- ===== src/Recalc/Graph/Frontier.antt =====
-- DependencyGraph.affected_frontier: its end and its result.
use autonomous_iq.Prelude.{refl, ◌+◌, ◌≡◌, refl, ◌↔◌, true, List, [], ◌∷◌, some, arith, length}
use autonomous_iq.Recalc.Coord.{CellCoord, contains, contains-append, distinct}
use autonomous_iq.Recalc.Worklist.{Covers, Reach, fifo, walk_total, weight}
use autonomous_iq.Recalc.Worklist.Correct.{walk_correct, walk-distinct}
use autonomous_iq.Recalc.Graph.{Nodes, dependents, referenced, affected_frontier}

referenced-Covers : (nodes : Nodes) → Covers (dependents nodes) (referenced nodes)
unfolding dependents
referenced-Covers [] c h = refl
referenced-Covers ((k, node) ∷ nodes) c h =
    ground (arith, contains-append node.depends_on (referenced nodes) c, referenced-Covers nodes c)

-- The loop over the queue ends: the fuel of the model is never used up.
pub affected_frontier_total :
    (nodes : Nodes) (changed : List CellCoord)
    → (affected : List CellCoord) × (affected_frontier nodes changed ≡ some affected)
unfolding affected_frontier
affected_frontier_total nodes changed =
    walk_total (dependents nodes) fifo (referenced nodes) (referenced-Covers nodes)
      (length changed + weight (dependents nodes) (referenced nodes) []) [] changed (omega arith)

-- A search for the affected cells that ends returns the closure of the changed cells under
-- `dependents`, nothing more or less.
pub affected_frontier_correct :
    (nodes : Nodes) (changed affected : List CellCoord)
    → affected_frontier nodes changed ≡ some affected
    → (c : CellCoord) → (contains affected c ≡ true) ↔ Reach (dependents nodes) changed c
unfolding affected_frontier
affected_frontier_correct nodes changed affected e c =
    walk_correct (dependents nodes) changed fifo
      (length changed + weight (dependents nodes) (referenced nodes) []) affected e c

pub affected_frontier-distinct :
    (nodes : Nodes) (changed affected : List CellCoord)
    → affected_frontier nodes changed ≡ some affected
    → distinct affected ≡ true
unfolding affected_frontier
affected_frontier-distinct nodes changed affected e =
    walk-distinct (dependents nodes) fifo
      (length changed + weight (dependents nodes) (referenced nodes) []) [] changed affected refl e
