-- ===== src/Migrations/Run.antt =====
-- What the statements of migrations/versions do to the catalog of a database. A statement that the
-- database refuses ends the run. Names of indexes and of unique keys are not checked to be new.
use autonomous_iq.Prelude.{
  String, Bool, true, false, not, ◌&&◌, ◌||◌, List, [], ◌∷◌, ◌++◌, map, Option, none, some, any,
  filter, str_eq, if◌then◌else◌,
}
use autonomous_iq.Prelude.Text.{Text, text_eq}
use autonomous_iq.Migrations.Statements.{
  Catalog, Column, ColumnType, Enum, Index, Reference, Statement, Table, add_column, clear_column,
  create_enum, create_foreign_key, create_index, create_table, drop_column, drop_constraint,
  drop_index, drop_table, drop_type, enum, named,
}

module _ (n : String) where
  abbrev pub has_table : List Table → Bool
  has_table tables = any (λ (t : Table). str_eq t.name n) tables

  abbrev pub has_enum : List Enum → Bool
  has_enum enums = any (λ (e : Enum). str_eq e.name n) enums

  abbrev pub of_enum : Column → Bool
  of_enum c = elim c.type [ enum m ↦ str_eq m n | _ ↦ false ]

  -- A column of a table has the type.
  abbrev pub type_used : List Table → Bool
  type_used tables = any (λ (t : Table). any of_enum t.columns) tables

  abbrev pub refers_here : Column → Bool
  refers_here c = elim c.refers [ none ↦ false | some r ↦ str_eq r.table n ]

  -- Another table refers to the table.
  abbrev pub table_used : List Table → Bool
  table_used tables = any (λ (t : Table). not (str_eq t.name n) && any refers_here t.columns) tables

  abbrev pub column_in : String → Table → Bool
  column_in c t = str_eq t.name n && any (λ (d : Column). str_eq d.name c) t.columns

  abbrev pub has_column : String → List Table → Bool
  has_column c tables = any (column_in c) tables

  abbrev pub has_columns : List String → List Table → Bool
  has_columns [] tables = true
  has_columns (c ∷ cs) tables = has_column c tables && has_columns cs tables

  abbrev pub modify_table : (Table → Table) → List Table → List Table
  modify_table f tables = map (λ (t : Table). if str_eq t.name n then f t else t) tables

  abbrev pub remove_table : List Table → List Table
  remove_table tables = filter (λ (t : Table). not (str_eq t.name n)) tables

  abbrev pub remove_enum : List Enum → List Enum
  remove_enum enums = filter (λ (e : Enum). not (str_eq e.name n)) enums

-- What the column refers to, and its type, are there.
abbrev pub type_known : Catalog → ColumnType → Bool
type_known c (enum n) = has_enum n c.enums
type_known c _ = true

abbrev pub target_known : Catalog → Option Reference → Bool
target_known c none = true
target_known c (some r) = has_column r.table r.column c.tables

-- The columns of a new table, of which one may refer to the table itself.
abbrev pub columns_known : Table → Catalog → List Column → Bool
columns_known t c [] = true
columns_known t c (d ∷ ds) =
    type_known c d.type && (target_known c d.refers || refers_here t.name d) && columns_known t c ds

abbrev pub names_it : Text → Column → Bool
names_it name c = elim c.refers [ none ↦ false | some r ↦ text_eq r.name name ]

abbrev pub has_constraint : String → Text → List Table → Bool
has_constraint n name tables =
    any (λ (t : Table). str_eq t.name n && any (names_it name) t.columns) tables

abbrev pub has_index : String → String → List Table → Bool
has_index n name tables =
    any (λ (t : Table). str_eq t.name n && any (λ (i : Index). str_eq i.name name) t.indexes) tables

-- The database accepts the statement.
unfoldable pub accepts : Statement → Catalog → Bool
accepts (create_table t) c = not (has_table t.name c.tables) && columns_known t c t.columns
accepts (drop_table n) c = has_table n c.tables && not (table_used n c.tables)
accepts (add_column n d) c =
    has_table n c.tables
    && not (has_column n d.name c.tables)
    && type_known c d.type
    && target_known c d.refers
accepts (drop_column n d) c = has_column n d c.tables
accepts (create_index n i) c = has_columns n i.columns c.tables
accepts (drop_index n i) c = has_index n i c.tables
accepts (create_foreign_key n d r) c =
    has_column n d c.tables && has_column r.table r.column c.tables
accepts (drop_constraint n name) c = has_constraint n name c.tables
accepts (create_enum e) c = true
accepts (drop_type n) c = not (type_used n c.tables)
accepts (clear_column n d) c = has_column n d c.tables

abbrev pub mentions : String → Index → Bool
mentions d i = any (λ c. str_eq c d) i.columns

abbrev pub without_column : String → Table → Table
without_column d t = record t {
  columns = filter (λ (c : Column). not (str_eq c.name d)) t.columns;
  indexes = filter (λ i. not (mentions d i)) t.indexes;
}

abbrev pub with_reference : String → Reference → Table → Table
with_reference d r t = record t {
  columns =
      map (λ (c : Column). if str_eq c.name d then record c { refers = some r } else c) t.columns;
}

abbrev pub without_reference : Text → Table → Table
without_reference name t = record t {
  columns =
      map (λ (c : Column). if names_it name c then record c { refers = none } else c) t.columns;
}

abbrev pub on_table : String → (Table → Table) → Catalog → Catalog
on_table n f c = record c { tables = modify_table n f c.tables }

unfoldable pub effect : Statement → Catalog → Catalog
effect (create_table t) c = record c { tables = c.tables ++ t ∷ [] }
effect (drop_table n) c = record c { tables = remove_table n c.tables }
effect (add_column n d) c = on_table n (λ t. record t { columns = t.columns ++ named n d ∷ [] }) c
effect (drop_column n d) c = on_table n (without_column d) c
effect (create_index n i) c = on_table n (λ t. record t { indexes = t.indexes ++ i ∷ [] }) c
effect (drop_index n i) c =
    on_table n (λ t. record t { indexes = filter (λ (j : Index). not (str_eq j.name i)) t.indexes })
      c
effect (create_foreign_key n d r) c = on_table n (with_reference d r) c
effect (drop_constraint n name) c = on_table n (without_reference name) c
effect (create_enum e) c =
    if has_enum e.name c.enums then c else record c { enums = c.enums ++ e ∷ [] }
effect (drop_type n) c = record c { enums = remove_enum n c.enums }
effect (clear_column n d) c = c

unfoldable pub run : List Statement → Catalog → Option Catalog
unfolding accepts effect
run [] c = some c
run (s ∷ statements) c =
    let rest = run statements (effect s c) in if accepts s c then rest else none
