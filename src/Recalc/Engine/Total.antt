-- ===== src/Recalc/Engine/Total.antt =====
-- The fuel of the whole engine.
use autonomous_iq.Recalc.Engine.{
  as_write, outcome_write, formula_syntax, from_cell_rows, write_for, apply_write, evaluate_cells,
  run_plan, recalculate, on_cell_edit, CellEdit, edit_write, mark_cells,
}
use autonomous_iq.Prelude.{
  ◌++◌, Bool-cases, ◌==◌, ℕ, ◌≢◌, refl, List, [], ◌∷◌, Option, none, some, arith, inl, inr,
  Option-cases,
}
use autonomous_iq.Prelude.Text.{Text}
use autonomous_iq.Recalc.Coord.{CellCoord}
use autonomous_iq.Recalc.Graph.Plan.{plan_total}
use autonomous_iq.Recalc.Syntax.{
  parsed, syntax_error, Node, literal, cell_ref, cell_range, func_call, bin_op, Args, no_args, arg,
  parse_formula, out_of_fuel,
}
use autonomous_iq.Recalc.Token.{tokenize}
use autonomous_iq.Recalc.Syntax.Total.{parse_tokens_total}
use autonomous_iq.Recalc.Value.{
  coerce_cells, transport, formula_syntax, formula_evaluation, apply_operator, Sidecar, Row,
  Outcome, returns, raises, no_fuel, ◌>>=◌, evaluate, eval_node, eval_args, evaluate_formula,
  arithmetic_func, get_row,
}
use autonomous_iq.Recalc.Repository.{Table, CellWrite, save_cell, load_subgraph}
use autonomous_iq.Recalc.Engine.Rows.{from_cell_rows-IsDict}
use autonomous_iq.Recalc.Engine.Sync.{
  IsSynced, load_subgraph-RowsDistinct, save_cell-IsSynced, circular_write, upstream_write,
}

bind-ne-no_fuel {ℓ κ} :
    {A : Type ℓ} {B : Type κ} (m : Outcome A) (f : A → Outcome B)
    → m ≢ raises no_fuel
    → ((a : A) → f a ≢ raises no_fuel)
    → (m >>= f) ≢ raises no_fuel
bind-ne-no_fuel (returns a) f h k = k a
bind-ne-no_fuel (raises e) f h k = λ r. h (cc)

parse_formula_total : (text : Text) → parse_formula text ≢ out_of_fuel
unfolding parse_formula
parse_formula_total [] = λ e. cc
parse_formula_total (c ∷ body) = elim (Bool-cases (c == b'=')) [
  | inl e ↦ elim (Option-cases (tokenize 0 body)) [
    | inl k ↦ rw (e, k, parse_formula) (λ h. cc)
    | inr (ts, k) ↦ rw (e, k, parse_formula) (parse_tokens_total ts)
  ]
  | inr e ↦ rw (e, parse_formula) (λ h. cc)
]

returns-ne {ℓ} : {A : Type ℓ} (a : A) → ◌≢◌ {A = Outcome A} (returns a) (raises no_fuel)
returns-ne a e = cc

module _ (sidecar : Sidecar) (rows : List Row) where
  evaluate-ne-no_fuel :
      (name : Text) (args : List sidecar.Value) → evaluate sidecar name args ≢ raises no_fuel
  unfolding evaluate
  evaluate-ne-no_fuel name args = ground arith

  operator-ne-no_fuel :
      (op : Text) (args : List sidecar.Value) → apply_operator sidecar op args ≢ raises no_fuel
  unfolding apply_operator
  operator-ne-no_fuel op args = elim (Option-cases (arithmetic_func op)) [
    | inl k ↦ rw (k, apply_operator) (λ h. cc)
    | inr (f, k) ↦ rw (k, apply_operator) (evaluate-ne-no_fuel f args)
  ]

  mutual
    unfolding eval_node

    eval_node-ne : (node : Node) → eval_node sidecar rows node ≢ raises no_fuel
    eval_node-ne (literal k) = returns-ne _
    eval_node-ne (cell_ref c) = returns-ne _
    eval_node-ne (cell_range cs) = returns-ne _
    eval_node-ne (bin_op op left right) =
        bind-ne-no_fuel (eval_node sidecar rows left) _ (eval_node-ne left) (λ l.
          bind-ne-no_fuel (eval_node sidecar rows right) _ (eval_node-ne right)
            (λ r. operator-ne-no_fuel op (l ∷ r ∷ [])))
    eval_node-ne (func_call name args) =
        bind-ne-no_fuel (eval_args sidecar rows args) (evaluate sidecar name) (eval_args-ne args)
          (evaluate-ne-no_fuel name)

    eval_args-ne : (args : Args) → eval_args sidecar rows args ≢ raises no_fuel
    eval_args-ne no_args = returns-ne _
    eval_args-ne (arg (cell_range cs) rest) =
        bind-ne-no_fuel (eval_args sidecar rows rest) _ (eval_args-ne rest)
          (λ vs. returns-ne (coerce_cells sidecar rows cs ++ vs))
    eval_args-ne (arg node rest) =
        bind-ne-no_fuel (eval_node sidecar rows node) _ (eval_node-ne node) (λ v.
          bind-ne-no_fuel (eval_args sidecar rows rest) _ (eval_args-ne rest)
            (λ vs. returns-ne (v ∷ vs)))

  evaluate_formula-ne : (text : Text) → evaluate_formula sidecar rows text ≢ raises no_fuel
  unfolding evaluate_formula
  evaluate_formula-ne text =
      (elim (parse_formula text)
          as (λ r.
            r ≢ out_of_fuel
            → (elim r as (λ _. Outcome sidecar.Value) [
              | parsed ast _ ↦ eval_node sidecar rows ast
              | syntax_error ↦ raises formula_syntax
              | out_of_fuel ↦ raises no_fuel
            ])
              ≢ raises no_fuel) [
                | parsed ast _ ↦ λ h. eval_node-ne ast
                | syntax_error ↦ λ h e. cc
                | out_of_fuel ↦ λ h e. h refl
              ])
        (parse_formula_total text)

module _ (sidecar : Sidecar) (tenant tracker : ℕ) where
  write_for-ne :
      (rows : List Row) (c : CellCoord) → write_for sidecar tenant tracker rows c ≢ raises no_fuel
  unfolding write_for
  write_for-ne rows c = elim (Option-cases (get_row rows c)) [
    | inl k ↦ rw (k, write_for) (returns-ne _)
    | inr (row, k) ↦ rw (k, write_for) (formula_write row.formula)
  ]
    where
      caught :
          (m : Outcome sidecar.Value)
          → m ≢ raises no_fuel
          → as_write sidecar tenant tracker (outcome_write sidecar tenant tracker m)
            ≢ raises no_fuel
      caught (returns v) h e = cc
      caught (raises formula_syntax) h e = cc
      caught (raises formula_evaluation) h e = cc
      caught (raises transport) h e = cc
      caught (raises no_fuel) h e = h refl

      formula_write :
          (formula : Option Text)
          → (elim formula as (λ _. Outcome (Option CellWrite)) [
            | none ↦ returns none
            | some text ↦ elim text as (λ _. Outcome (Option CellWrite)) [
              | [] ↦ returns none
              | ch ∷ rest ↦
                  as_write sidecar tenant tracker (
                    outcome_write sidecar tenant tracker
                      (evaluate_formula sidecar rows (ch ∷ rest)))
            ]
          ])
            ≢ raises no_fuel
      formula_write none = returns-ne _
      formula_write (some []) = returns-ne _
      formula_write (some (ch ∷ text)) =
          caught (evaluate_formula sidecar rows (ch ∷ text))
            (evaluate_formula-ne sidecar rows (ch ∷ text))

  evaluate_cells-ne :
      (rows : List Row) (cs : List CellCoord) (table : Table)
      → evaluate_cells sidecar tenant tracker rows cs table ≢ raises no_fuel
  unfolding evaluate_cells
  evaluate_cells-ne rows [] table = λ e. cc
  evaluate_cells-ne rows (c ∷ cs) table =
      bind-ne-no_fuel (write_for sidecar tenant tracker rows c) _ (write_for-ne rows c)
        (λ w. evaluate_cells-ne rows cs (apply_write sidecar tenant tracker w c table))

  recalculate-ne :
      (changed : List CellCoord) (table : Table)
      → IsSynced table
      → recalculate sidecar tenant tracker changed table ≢ raises no_fuel
  unfolding recalculate run_plan
  recalculate-ne changed table s =
      let rows = load_subgraph table tracker in
      let dict = from_cell_rows-IsDict rows (load_subgraph-RowsDistinct table tracker s) in
      let (p, planned, _) = plan_total (from_cell_rows rows) changed dict in
      rw (planned, recalculate)
        (evaluate_cells-ne rows p.order (
          mark_cells sidecar tenant tracker upstream_write p.upstream_of_circular
            (mark_cells sidecar tenant tracker circular_write p.circular table)))

  -- On a table in sync an edit never gets stuck: planning, parsing and evaluation all end, whatever
  -- the formulas and cycles.
  pub on_cell_edit_total :
      (edit : CellEdit) (table : Table)
      → IsSynced table
      → on_cell_edit sidecar tenant tracker edit table ≢ raises no_fuel
  unfolding on_cell_edit
  on_cell_edit_total edit table s =
      recalculate-ne (edit.coord ∷ []) (save_cell tenant tracker edit.coord (edit_write edit) table)
        (save_cell-IsSynced tenant tracker edit.coord (edit_write edit) table refl s)
