-- ===== src/Api/Ingestion/Connectors.antt =====
-- libs/connectors: the connectors for Postgres, MySQL, SQL Server and Snowflake. The drivers (the
-- packages asyncpg, aiomysql, pyodbc and snowflake-connector-python) and the values of a JSON config
-- are parameters. A driver is absent if its package is not installed; the closing of a connection
-- and the time that a connection may take are left to it.
use autonomous_iq.Prelude.{
  ℕ, String, true, false, List, [], ◌∷◌, ◌++◌, map, take, Option, none, some, if◌then◌else◌,
}
use autonomous_iq.Prelude.Text.{Text, codes, text_eq}
use autonomous_iq.Api.Ingestion.{
  TestResult, Connector, postgres_connector, mysql_connector, sqlserver_connector,
  snowflake_connector,
}

-- What a call gives, or the text of the exception that it raises.
pub data Attempt (A : Type 0) : Type 0 where
  returned : A → Attempt A
  raised : Text → Attempt A

infixl 5 ◌>>=◌
abbrev pub ◌>>=◌ : {A B : Type 0} → Attempt A → (A → Attempt B) → Attempt B
returned a >>= f = f a
raised e >>= f = raised e

pub record QueryResult (V : Type 0) : Type 0 where
  pub columns : List Text
  pub rows : List (List V)

-- A config, and the keyword arguments of a call.
abbrev pub Config : Type 0 → Type 0
Config J = List (Text × J)

-- What the connectors use of the values of a config.
pub record JsonValues (J : Type 0) : Type 0 where
  pub number : ℕ → J
  pub null : J
  pub show : J → Text

-- asyncpg: a record of an answer has its columns' names.
pub record RecordDriver (A C V : Type 0) : Type 0 where
  pub connect : A → Attempt C
  pub fetch : C → Text → Attempt (List (List (Text × V)))

-- A driver with cursors: an execution gives the names of the columns, none if it has no answer, and
-- fetchmany.
pub record CursorDriver (A C V : Type 0) : Type 0 where
  pub connect : A → Attempt C
  pub execute : C → Text → Attempt (List Text × (ℕ → Attempt (List (List V))))

pub record Drivers (J C V : Type 0) : Type 0 where
  pub asyncpg : Option (RecordDriver (Config J) C V)
  pub aiomysql : Option (CursorDriver (Config J) C V)
  pub pyodbc : Option (CursorDriver Text C V)
  pub snowflake_driver : Option (CursorDriver (Config J) C V)

-- config[k], with the text of the KeyError.
abbrev pub get_item : {J : Type 0} → Config J → Text → Attempt J
get_item [] k = raised (codes "'" ++ (k ++ codes "'"))
get_item ((l, v) ∷ config) k = if text_eq l k then returned v else get_item config k

-- config.get(k, default)
abbrev pub get_or : {J : Type 0} → Config J → Text → J → J
get_or [] k default = default
get_or ((l, v) ∷ config) k default = if text_eq l k then v else get_or config k default

-- The result of a test: what connecting raises is its message.
abbrev pub test_result : {C : Type 0} → Attempt C → TestResult
test_result (returned connection) = record {
  succeeded = true;
  message = codes "Connected successfully.";
}
test_result (raised e) = record { succeeded = false; message = e }

-- A package that is not installed.
abbrev pub not_installed : Text → TestResult
not_installed name = record {
  succeeded = false;
  message = name ++ codes " is not installed in this environment.";
}

-- The ImportError of a query.
abbrev pub no_module : Text → Text
no_module name = codes "No module named '" ++ (name ++ codes "'")

-- The methods of a connector with a cursor, whose package may be missing.
abbrev pub test_cursor :
    {A C V : Type 0} → Text → Option (CursorDriver A C V) → Attempt A → TestResult
test_cursor name none arguments = not_installed name
test_cursor name (some driver) arguments = test_result (arguments >>= driver.connect)

abbrev pub query_cursor :
    {A C V : Type 0}
    → Text
    → Option (CursorDriver A C V)
    → Attempt A
    → Text
    → ℕ
    → Attempt (QueryResult V)
query_cursor name none arguments sql limit = raised (no_module name)
query_cursor name (some driver) arguments sql limit = arguments >>= driver.connect >>= λ connection.
    driver.execute connection sql >>= λ (description, fetchmany).
    fetchmany limit >>= λ rows. returned record { columns = description; rows = rows }

-- The names of the first record's columns.
abbrev pub record_columns : {V : Type 0} → List (List (Text × V)) → List Text
record_columns [] = []
record_columns (r ∷ records) = map (λ (name, value). name) r

-- The methods of the connector for Postgres.
abbrev pub test_records : {A C V : Type 0} → Option (RecordDriver A C V) → Attempt A → TestResult
test_records none arguments = not_installed (codes "asyncpg")
test_records (some driver) arguments = test_result (arguments >>= driver.connect)

abbrev pub query_records :
    {A C V : Type 0} → Option (RecordDriver A C V) → Attempt A → Text → ℕ → Attempt (QueryResult V)
query_records none arguments sql limit = raised (no_module (codes "asyncpg"))
query_records (some driver) arguments sql limit = arguments >>= driver.connect >>= λ connection.
    driver.fetch connection sql >>= λ records. returned record {
      columns = record_columns records;
      rows = map (map (λ (name, value). value)) (take limit records);
    }

module _ {J : Type 0} (json : JsonValues J) where
  abbrev pub postgres_arguments : Config J → Attempt (Config J)
  postgres_arguments config = get_item config (codes "host") >>= λ host.
      get_item config (codes "database") >>= λ database. get_item config (codes "user") >>= λ user.
      get_item config (codes "password") >>= λ password. returned (
        (codes "host", host)
        ∷ (codes "port", get_or config (codes "port") (json.number 5432))
        ∷ (codes "database", database)
        ∷ (codes "user", user)
        ∷ (codes "password", password)
        ∷ [])

  abbrev pub mysql_arguments : Config J → Attempt (Config J)
  mysql_arguments config = get_item config (codes "host") >>= λ host.
      get_item config (codes "database") >>= λ database. get_item config (codes "user") >>= λ user.
      get_item config (codes "password") >>= λ password. returned (
        (codes "host", host)
        ∷ (codes "port", get_or config (codes "port") (json.number 3306))
        ∷ (codes "db", database)
        ∷ (codes "user", user)
        ∷ (codes "password", password)
        ∷ [])

  -- _connection_string
  abbrev pub connection_string : Config J → Attempt Text
  connection_string config = get_item config (codes "host") >>= λ host.
      get_item config (codes "database") >>= λ database. get_item config (codes "user") >>= λ user.
      get_item config (codes "password") >>= λ password. returned (
        codes "DRIVER={ODBC Driver 18 for SQL Server};SERVER="
        ++ (json.show host
            ++ (codes ","
                ++ (json.show (get_or config (codes "port") (json.number 1433))
                    ++ (codes ";DATABASE="
                        ++ (json.show database
                            ++ (codes ";UID="
                                ++ (json.show user
                                    ++ (codes ";PWD="
                                        ++ (json.show password
                                            ++ codes
                                                ";Encrypt=yes;TrustServerCertificate=yes;"))))))))))

  abbrev pub snowflake_arguments : Config J → Attempt (Config J)
  snowflake_arguments config = get_item config (codes "account") >>= λ account.
      get_item config (codes "user") >>= λ user. get_item config (codes "password") >>= λ password.
      returned (
        (codes "account", account)
        ∷ (codes "user", user)
        ∷ (codes "password", password)
        ∷ (codes "warehouse", get_or config (codes "warehouse") json.null)
        ∷ (codes "database", get_or config (codes "database") json.null)
        ∷ (codes "schema", get_or config (codes "schema") json.null)
        ∷ [])

  -- The text of a config of the database, as a JSON object.
  module _ {C V : Type 0} (decode : String → Config J) (drivers : Drivers J C V) where
    unfoldable pub test_connection : Connector → TestResult
    test_connection (postgres_connector config) =
        test_records drivers.asyncpg (postgres_arguments (decode config))
    test_connection (mysql_connector config) =
        test_cursor (codes "aiomysql") drivers.aiomysql (mysql_arguments (decode config))
    test_connection (sqlserver_connector config) =
        test_cursor (codes "pyodbc") drivers.pyodbc (connection_string (decode config))
    test_connection (snowflake_connector config) =
        test_cursor (codes "snowflake-connector-python") drivers.snowflake_driver
          (snowflake_arguments (decode config))

    unfoldable pub run_query : Connector → Text → ℕ → Attempt (QueryResult V)
    run_query (postgres_connector config) =
        query_records drivers.asyncpg (postgres_arguments (decode config))
    run_query (mysql_connector config) =
        query_cursor (codes "aiomysql") drivers.aiomysql (mysql_arguments (decode config))
    run_query (sqlserver_connector config) =
        query_cursor (codes "pyodbc") drivers.pyodbc (connection_string (decode config))
    run_query (snowflake_connector config) =
        query_cursor (codes "snowflake") drivers.snowflake_driver
          (snowflake_arguments (decode config))
