-- ===== src/Api/Ingestion/Queries.antt =====
-- The connectors of libs/connectors: what a query that succeeds says of its connection, and how many
-- rows it gives.
use autonomous_iq.Prelude.{ℕ, ◌≡◌, refl, String, true, Option, none, some}
use autonomous_iq.Prelude.Text.{Text, codes}
use autonomous_iq.Api.Ingestion.{
  Connector, postgres_connector, mysql_connector, sqlserver_connector, snowflake_connector,
}
use autonomous_iq.Api.Ingestion.Connectors.{
  Attempt, returned, raised, ◌>>=◌, QueryResult, Config, JsonValues, RecordDriver, CursorDriver,
  Drivers, test_result, postgres_arguments, mysql_arguments, connection_string, snowflake_arguments,
  test_cursor, query_cursor, test_records, query_records, test_connection, run_query,
}

-- What connects is tested with success.
connects :
    {B C : Type 0} (m : Attempt C) (f : C → Attempt B) {b : B}
    → (m >>= f) ≡ returned b
    → (test_result m).succeeded ≡ true
connects (returned c) f h = refl
connects (raised e) f h = cc

query_cursor-test :
    {A C V : Type 0} (module_name package_name : Text) (driver : Option (CursorDriver A C V))
    (arguments : Attempt A) (sql : Text) (limit : ℕ) {r : QueryResult V}
    → query_cursor module_name driver arguments sql limit ≡ returned r
    → (test_cursor package_name driver arguments).succeeded ≡ true
query_cursor-test m p none arguments sql limit h = cc
query_cursor-test m p (some driver) arguments sql limit h =
    connects (arguments >>= driver.connect) _ h

query_records-test :
    {A C V : Type 0} (driver : Option (RecordDriver A C V)) (arguments : Attempt A) (sql : Text)
    (limit : ℕ) {r : QueryResult V}
    → query_records driver arguments sql limit ≡ returned r
    → (test_records driver arguments).succeeded ≡ true
query_records-test none arguments sql limit h = cc
query_records-test (some driver) arguments sql limit h = connects (arguments >>= driver.connect) _ h

-- A connector that answers a query passes the test of its connection.
module _ {J C V : Type 0} (json : JsonValues J) (decode : String → Config J) where
  pub run_query-test_connection :
      (drivers : Drivers J C V) (connector : Connector) (sql : Text) (limit : ℕ) {r : QueryResult V}
      → run_query json decode drivers connector sql limit ≡ returned r
      → (test_connection json decode drivers connector).succeeded ≡ true
  unfolding run_query test_connection
  run_query-test_connection drivers (postgres_connector config) sql limit h =
      query_records-test drivers.asyncpg (postgres_arguments json (decode config)) sql limit h
  run_query-test_connection drivers (mysql_connector config) sql limit h =
      query_cursor-test (codes "aiomysql") (codes "aiomysql") drivers.aiomysql
        (mysql_arguments json (decode config)) sql limit h
  run_query-test_connection drivers (sqlserver_connector config) sql limit h =
      query_cursor-test (codes "pyodbc") (codes "pyodbc") drivers.pyodbc
        (connection_string json (decode config)) sql limit h
  run_query-test_connection drivers (snowflake_connector config) sql limit h =
      query_cursor-test (codes "snowflake") (codes "snowflake-connector-python")
        drivers.snowflake_driver (snowflake_arguments json (decode config)) sql limit h
