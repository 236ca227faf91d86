-- ===== src/Api/Ingestion.antt =====
-- apps/api/ingestion.py and libs/connectors/registry.py. The test of a connection is the argument
-- `test`: Connectors has the function, which catches whatever a driver raises.
pub mod Connectors
pub mod Queries
use autonomous_iq.Prelude.{ℕ, String, Bool, List, none, some, filter}
use autonomous_iq.Prelude.Text.{Text}
use autonomous_iq.Errors.{Response, ok, err, domain, not_found, require, ◌>>=◌, ◌>>◌}
use autonomous_iq.Models.Content.{
  ConnectorConfig, ConnectorType, postgres, mysql, sqlserver, snowflake,
}
use autonomous_iq.Models.Database.{Database, get_by}
use autonomous_iq.Models.Schema.{insert_connector, not_null}
use autonomous_iq.Api.Deps.{CurrentUser, same_tenant}

pub record CreateConnectorRequest : Type 0 where
  pub connector_type : ConnectorType
  pub name : String
  pub config : String

-- ConnectionTestResult, and TestConnectionResponse.
pub record TestResult : Type 0 where
  pub succeeded : Bool
  pub message : Text

pub data Connector : Type 0 where
  postgres_connector mysql_connector sqlserver_connector snowflake_connector : String → Connector

-- _REGISTRY
abbrev pub get_connector : ConnectorType → String → Connector
get_connector postgres config = postgres_connector config
get_connector mysql config = mysql_connector config
get_connector sqlserver config = sqlserver_connector config
get_connector snowflake config = snowflake_connector config

unfoldable pub create_connector :
    ℕ → CreateConnectorRequest → CurrentUser → Database → Response (ConnectorConfig × Database)
unfolding insert_connector
create_connector new_id body user db = not_null user.tenant_id >>= λ tenant_id.
    let connector : ConnectorConfig = record {
      id = new_id;
      tenant_id = tenant_id;
      connector_type = body.connector_type;
      name = body.name;
      config = body.config;
      created_by = some user.user_id;
    } in
    insert_connector connector db >>= λ db'. ok (connector, db')

unfoldable pub list_connectors : CurrentUser → Database → List ConnectorConfig
list_connectors user db =
    filter (λ (c : ConnectorConfig). same_tenant c.tenant_id user.tenant_id) db.connectors

unfoldable pub test_connector :
    (Connector → TestResult) → ℕ → CurrentUser → Database → Response TestResult
unfolding get_by
test_connector test connector_id user db =
    elim (get_by (λ (c : ConnectorConfig). c.id) connector_id db.connectors) [
      | none ↦ err (domain not_found)
      | some c ↦
          require (same_tenant c.tenant_id user.tenant_id) not_found
          >> ok (test (get_connector c.connector_type c.config))
    ]
