-- ===== src/Migrations/Frame.antt =====
-- A run of statements on the catalog of a database that also has other tables and types.
use mathlib.Core.List.{append_assoc}
use autonomous_iq.Prelude.{
  String, ◌≡◌, refl, ap, Bool, true, false, not, ◌&&◌, ◌||◌, List, [], ◌∷◌, ◌++◌, Option, none,
  some, any, filter, str_eq, arith, Bool-cases, inl, inr,
}
use autonomous_iq.Migrations.Statements.{
  ColumnType, uuid, text, boolean, integer, timestamp, jsonb, varchar, enum, Reference, Column,
  Table, Enum, Catalog, Statement, create_table, drop_table, add_column, drop_column, create_index,
  drop_index, create_foreign_key, drop_constraint, create_enum, drop_type, clear_column,
}
use autonomous_iq.Migrations.Run.{
  has_table, has_enum, of_enum, type_used, refers_here, table_used, column_in, has_column,
  has_columns, modify_table, type_known, target_known, columns_known, accepts, on_table, effect,
  run,
}

-- The tables and types of both.
abbrev pub beside : Catalog → Catalog → Catalog
beside b c = record { tables = b.tables ++ c.tables; enums = b.enums ++ c.enums }

abbrev with_tables : List Table → Catalog → Catalog
with_tables tables c = record c { tables = tables }

abbrev with_enums : List Enum → Catalog → Catalog
with_enums enums c = record c { enums = enums }

-- The other tables neither bear the name of the statement's table nor refer to it, and the other
-- types and columns do not bear or have the name of its type.
abbrev pub apart_table : String → Catalog → Bool
apart_table n b = not (has_table n b.tables) && not (table_used n b.tables)

abbrev pub apart_type : String → Catalog → Bool
apart_type n b = not (has_enum n b.enums) && not (type_used n b.tables)

abbrev pub apart : Statement → Catalog → Bool
apart (create_table t) b = apart_table t.name b
apart (drop_table n) b = apart_table n b
apart (add_column n d) b = apart_table n b
apart (drop_column n d) b = apart_table n b
apart (create_index n i) b = apart_table n b
apart (drop_index n i) b = apart_table n b
apart (create_foreign_key n d r) b = apart_table n b
apart (drop_constraint n name) b = apart_table n b
apart (create_enum e) b = apart_type e.name b
apart (drop_type n) b = apart_type n b
apart (clear_column n d) b = apart_table n b

abbrev pub all_apart : List Statement → Catalog → Bool
all_apart [] b = true
all_apart (s ∷ statements) b = apart s b && all_apart statements b

any-append : {A : Type 0} (p : A → Bool) (xs ys : List A) → any p (xs ++ ys) ≡ any p xs || any p ys
any-append p [] ys = refl
any-append p (x ∷ xs) ys = ground (arith, any-append p xs ys)

-- A test that holds of the tables of the run holds of all.
any-right : {A : Type 0} (p : A → Bool) (xs ys : List A) → any p ys ≡ true → any p (xs ++ ys) ≡ true
any-right p xs ys h = ground (arith, any-append p xs ys)

-- A test that fails of the others and of those of the run fails of all.
none-append :
    {A : Type 0} (p : A → Bool) (xs ys : List A)
    → any p xs ≡ false
    → any p ys ≡ false
    → any p (xs ++ ys) ≡ false
none-append p xs ys h k = ground (arith, any-append p xs ys)

has_columns-beside :
    (n : String) (cs : List String) (xs ys : List Table)
    → has_columns n cs ys ≡ true
    → has_columns n cs (xs ++ ys) ≡ true
has_columns-beside n [] xs ys h = refl
has_columns-beside n (c ∷ cs) xs ys h =
    ground (arith, any-right (column_in n c) xs ys, has_columns-beside n cs xs ys)

type_known-beside :
    (b c : Catalog) (t : ColumnType) → type_known c t ≡ true → type_known (beside b c) t ≡ true
type_known-beside b c (enum n) h = any-right (λ (e : Enum). str_eq e.name n) b.enums c.enums h
type_known-beside b c uuid h = refl
type_known-beside b c text h = refl
type_known-beside b c boolean h = refl
type_known-beside b c integer h = refl
type_known-beside b c timestamp h = refl
type_known-beside b c jsonb h = refl
type_known-beside b c (varchar n) h = refl

target_known-beside :
    (b c : Catalog) (r : Option Reference)
    → target_known c r ≡ true
    → target_known (beside b c) r ≡ true
target_known-beside b c none h = refl
target_known-beside b c (some r) h = any-right (column_in r.table r.column) b.tables c.tables h

columns_known-beside :
    (t : Table) (b c : Catalog) (ds : List Column)
    → columns_known t c ds ≡ true
    → columns_known t (beside b c) ds ≡ true
columns_known-beside t b c [] h = refl
columns_known-beside t b c (d ∷ ds) h = ground (
  arith,
  type_known-beside b c d.type,
  target_known-beside b c d.refers,
  columns_known-beside t b c ds,
)

no_column :
    (n d : String) (tables : List Table)
    → has_table n tables ≡ false
    → has_column n d tables ≡ false
no_column n d [] h = refl
no_column n d (t ∷ tables) h = ground (arith, no_column n d tables)

accepts-beside :
    (s : Statement) (b c : Catalog)
    → apart s b ≡ true
    → accepts s c ≡ true
    → accepts s (beside b c) ≡ true
unfolding accepts
accepts-beside (create_table t) b c a h = ground (
  arith,
  none-append (λ (u : Table). str_eq u.name t.name) b.tables c.tables,
  columns_known-beside t b c t.columns,
)
accepts-beside (drop_table n) b c a h = ground (
  arith,
  any-right (λ (u : Table). str_eq u.name n) b.tables c.tables,
  none-append (λ (u : Table). not (str_eq u.name n) && any (refers_here n) u.columns) b.tables
      c.tables,
)
accepts-beside (add_column n d) b c a h = ground (
  arith,
  any-right (λ (u : Table). str_eq u.name n) b.tables c.tables,
  no_column n d.name b.tables,
  none-append (column_in n d.name) b.tables c.tables,
  type_known-beside b c d.type,
  target_known-beside b c d.refers,
)
accepts-beside (drop_column n d) b c a h = any-right (column_in n d) b.tables c.tables h
accepts-beside (create_index n i) b c a h = has_columns-beside n i.columns b.tables c.tables h
accepts-beside (drop_index n i) b c a h = any-right _ b.tables c.tables h
accepts-beside (create_foreign_key n d r) b c a h = ground (
  arith,
  any-right (column_in n d) b.tables c.tables,
  any-right (column_in r.table r.column) b.tables c.tables,
)
accepts-beside (drop_constraint n name) b c a h = any-right _ b.tables c.tables h
accepts-beside (create_enum e) b c a h = refl
accepts-beside (drop_type n) b c a h =
    ground (arith, none-append (λ (t : Table). any (of_enum n) t.columns) b.tables c.tables)
accepts-beside (clear_column n d) b c a h = any-right (column_in n d) b.tables c.tables h

modify_table-beside :
    (n : String) (f : Table → Table) (xs ys : List Table)
    → has_table n xs ≡ false
    → modify_table n f (xs ++ ys) ≡ xs ++ modify_table n f ys
modify_table-beside n f [] ys h = refl
modify_table-beside n f (t ∷ xs) ys h = elim (Bool-cases (str_eq t.name n)) [
  | inl e ↦ absurd (ground arith)
  | inr e ↦ rw e (ap (λ r. t ∷ r) (modify_table-beside n f xs ys (ground arith)))
]

remove-beside :
    {A : Type 0} (p : A → Bool) (xs ys : List A)
    → any p xs ≡ false
    → filter (λ x. not (p x)) (xs ++ ys) ≡ xs ++ filter (λ x. not (p x)) ys
remove-beside p [] ys h = refl
remove-beside p (x ∷ xs) ys h = elim (Bool-cases (p x)) [
  | inl e ↦ absurd (ground arith)
  | inr e ↦ rw e (ap (λ r. x ∷ r) (remove-beside p xs ys (ground arith)))
]

on_table-beside :
    (n : String) (f : Table → Table) (b c : Catalog)
    → apart_table n b ≡ true
    → on_table n f (beside b c) ≡ beside b (on_table n f c)
on_table-beside n f b c a =
    ap (λ tables. with_tables tables (beside b c))
      (modify_table-beside n f b.tables c.tables (ground arith))

effect-beside :
    (s : Statement) (b c : Catalog)
    → apart s b ≡ true
    → effect s (beside b c) ≡ beside b (effect s c)
unfolding effect
effect-beside (create_table t) b c a =
    ap (λ tables. with_tables tables (beside b c)) (append_assoc b.tables c.tables (t ∷ []))
effect-beside (drop_table n) b c a =
    ap (λ tables. with_tables tables (beside b c))
      (remove-beside (λ (t : Table). str_eq t.name n) b.tables c.tables (ground arith))
effect-beside (add_column n d) b c a = on_table-beside n _ b c a
effect-beside (drop_column n d) b c a = on_table-beside n _ b c a
effect-beside (create_index n i) b c a = on_table-beside n _ b c a
effect-beside (drop_index n i) b c a = on_table-beside n _ b c a
effect-beside (create_foreign_key n d r) b c a = on_table-beside n _ b c a
effect-beside (drop_constraint n name) b c a = on_table-beside n _ b c a
effect-beside (create_enum e) b c a = elim (Bool-cases (has_enum e.name c.enums)) [
  | inl f ↦
      let both : has_enum e.name (b.enums ++ c.enums) ≡ true =
        any-right (λ (x : Enum). str_eq x.name e.name) b.enums c.enums f in
      rw (f, both) refl
  | inr f ↦
      let neither : has_enum e.name (b.enums ++ c.enums) ≡ false =
        none-append (λ (x : Enum). str_eq x.name e.name) b.enums c.enums (ground arith) f in
      rw (f, neither)
        (ap (λ enums. with_enums enums (beside b c)) (append_assoc b.enums c.enums (e ∷ [])))
]
effect-beside (drop_type n) b c a =
    ap (λ enums. with_enums enums (beside b c))
      (remove-beside (λ (e : Enum). str_eq e.name n) b.enums c.enums (ground arith))
effect-beside (clear_column n d) b c a = refl

-- A run is not disturbed by tables and types that the statements do not concern, nor does it
-- disturb them.
pub run-beside :
    (statements : List Statement) (b c c' : Catalog)
    → all_apart statements b ≡ true
    → run statements c ≡ some c'
    → run statements (beside b c) ≡ some (beside b c')
unfolding run
run-beside [] b c c' a h = ap some (ap (beside b) (let same : c ≡ c' = cc in same))
run-beside (s ∷ statements) b c c' a h = elim (Bool-cases (accepts s c)) [
  | inr e ↦ absurd (let clash = (rw (e, run) at h) in cc)
  | inl e ↦
      let first : apart s b ≡ true = ground arith in
      let rest : all_apart statements b ≡ true = ground arith in
      rw (accepts-beside s b c first e, effect-beside s b c first, run)
        (run-beside statements b (effect s c) c' rest (rw (e, run) at h))
]
