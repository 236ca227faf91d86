-- ===== src/Recalc/Engine/Rows.antt =====
-- The dict that DependencyGraph.from_cell_rows builds.
use autonomous_iq.Prelude.{◌≡◌, refl, true, ◌||◌, List, [], ◌∷◌, arith, Bool-cases, inl, inr}
use autonomous_iq.Recalc.Coord.{CellCoord, coord_eq, coord_eq_iff, contains, distinct}
use autonomous_iq.Recalc.Graph.{CellNode, Nodes, keys}
use autonomous_iq.Recalc.Graph.Edges.{IsDict}
use autonomous_iq.Recalc.Value.{Row}
use autonomous_iq.Recalc.Engine.{deps_or_empty, node_of, put_node, add_rows, from_cell_rows}

contains-keys-put_node :
    (c : CellCoord) (node : CellNode) (nodes : Nodes) (x : CellCoord)
    → contains (keys (put_node c node nodes)) x ≡ (coord_eq c x || contains (keys nodes) x)
unfolding put_node
contains-keys-put_node c node [] x = refl
contains-keys-put_node c node ((k, old) ∷ nodes) x = ground (
  arith,
  contains-keys-put_node c node nodes x,
  coord_eq_iff k c,
  coord_eq_iff k x,
  coord_eq_iff c x,
)

put_node-IsDict :
    (c : CellCoord) (node : CellNode) (nodes : Nodes)
    → distinct node.depends_on ≡ true
    → IsDict nodes
    → IsDict (put_node c node nodes)
unfolding put_node
put_node-IsDict c node [] h dict = record { one_entry = refl; deps_distinct = (h, tt) }
put_node-IsDict c node ((k, old) ∷ nodes) h dict =
    let rest = put_node-IsDict c node nodes h (record {
      one_entry = ground (arith, dict.one_entry);
      deps_distinct = dict.deps_distinct.1;
    }) in
    elim (Bool-cases (coord_eq k c)) [
      | inl e ↦
          rw (e, put_node)
            (record { one_entry = dict.one_entry; deps_distinct = (h, dict.deps_distinct.1) })
      | inr e ↦
          rw (e, put_node)
            (record {
              one_entry = ground (
                arith,
                dict.one_entry,
                rest.one_entry,
                contains-keys-put_node c node nodes k,
                coord_eq_iff c k,
                coord_eq_iff k c,
              );
              deps_distinct = (dict.deps_distinct.0, rest.deps_distinct);
            })
    ]

-- Every row lists each of its dependencies once.
abbrev pub RowsDistinct : List Row → Type 0
RowsDistinct [] = Unit
RowsDistinct (row ∷ rows) = (distinct (deps_or_empty row.depends_on) ≡ true) × RowsDistinct rows

add_rows-IsDict :
    (nodes : Nodes) (rows : List Row)
    → RowsDistinct rows
    → IsDict nodes
    → IsDict (add_rows nodes rows)
unfolding add_rows
add_rows-IsDict nodes [] h dict = dict
add_rows-IsDict nodes (row ∷ rows) h dict =
    add_rows-IsDict (put_node row.coord (node_of row) nodes) rows h.1
      (put_node-IsDict row.coord (node_of row) nodes h.0 dict)

pub from_cell_rows-IsDict : (rows : List Row) → RowsDistinct rows → IsDict (from_cell_rows rows)
from_cell_rows-IsDict rows h =
    add_rows-IsDict [] rows h (record { one_entry = refl; deps_distinct = tt })
