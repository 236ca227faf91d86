-- ===== src/Migrations/Statements.antt =====
-- The statements of the revisions in migrations/versions: sa.Column with its keyword arguments, and
-- the operations of alembic. A column is nullable unless the revision says otherwise or it is a
-- primary key; the reference of a column bears the name that PostgreSQL gives it,
-- `<table>_<column>_fkey`, unless it is made with a name of its own. A unique key is an index that is
-- unique; the method of an index is left out.
use autonomous_iq.Prelude.{ℕ, String, Bool, true, false, List, [], ◌++◌, map, Option, none, some}
use autonomous_iq.Prelude.Text.{Text, codes}

pub data ColumnType : Type 0 where
  uuid text boolean integer timestamp jsonb : ColumnType
  varchar : ℕ → ColumnType
  enum : String → ColumnType

pub data OnDelete : Type 0 where
  cascade set_null : OnDelete

-- ForeignKey
pub record Reference : Type 0 where
  pub name : Text
  pub table : String
  pub column : String
  pub ondelete : OnDelete

pub record Column : Type 0 where
  pub name : String
  pub type : ColumnType
  pub primary_key : Bool
  pub nullable : Bool
  pub refers : Option Reference
  pub server_default : Option String
  pub touched : Bool

pub record Index : Type 0 where
  pub name : String
  pub columns : List String
  pub is_unique : Bool

pub record Table : Type 0 where
  pub name : String
  pub columns : List Column
  pub indexes : List Index

pub record Enum : Type 0 where
  pub name : String
  pub values : List String

pub record Catalog : Type 0 where
  pub tables : List Table
  pub enums : List Enum

-- The columns of a revision: sa.Column and its keyword arguments.
abbrev pub column : String → ColumnType → Column
column name type = record {
  name = name;
  type = type;
  primary_key = false;
  nullable = true;
  refers = none;
  server_default = none;
  touched = false;
}

abbrev pub key : Column → Column
key c = record c { primary_key = true; nullable = false }

abbrev pub required : Column → Column
required c = record c { nullable = false }

abbrev pub default : String → Column → Column
default value c = record c { server_default = some value }

-- onupdate=sa.func.now()
abbrev pub on_update : Column → Column
on_update c = record c { touched = true }

abbrev pub refers_to : String → OnDelete → Column → Column
refers_to table ondelete c = record c {
  refers = some (record { name = []; table = table; column = "id"; ondelete = ondelete });
}

abbrev pub created_at : Column
created_at = required (default "now()" (column "created_at" timestamp))

abbrev pub updated_at : Column
updated_at = required (default "now()" (column "updated_at" timestamp))

abbrev pub fkey_name : String → String → Text
fkey_name table column = codes table ++ codes "_" ++ codes column ++ codes "_fkey"

abbrev pub named : String → Column → Column
named table c = record c {
  refers = elim c.refers [
    | none ↦ none
    | some r ↦ some (record r { name = fkey_name table c.name })
  ];
}

abbrev pub table : String → List Column → Table
table name columns = record { name = name; columns = map (named name) columns; indexes = [] }

abbrev pub index : String → List String → Index
index name columns = record { name = name; columns = columns; is_unique = false }

abbrev pub unique : String → List String → Index
unique name columns = record { name = name; columns = columns; is_unique = true }

-- The statements. `create_enum` is ENUM.create with checkfirst, `drop_type` is DROP TYPE IF EXISTS,
-- and `clear_column` the update that sets a column to null, which changes rows only.
pub data Statement : Type 0 where
  create_table : Table → Statement
  drop_table : String → Statement
  add_column : String → Column → Statement
  drop_column : String → String → Statement
  create_index : String → Index → Statement
  drop_index : String → String → Statement
  create_foreign_key : String → String → Reference → Statement
  drop_constraint : String → Text → Statement
  create_enum : Enum → Statement
  drop_type : String → Statement
  clear_column : String → String → Statement
