-- ===== src/Models/Content.antt =====
-- libs/models/workspace.py, libs/models/chat_and_connectors.py and the Tracker of
-- libs/models/tracker.py. A JSON column that the program only stores is a text.
use autonomous_iq.Prelude.{ℕ, String, Option, Bool, List}
use autonomous_iq.Prelude.Text.{Text}

pub data DatasetVisibility : Type 0 where
  tenant_wide restricted : DatasetVisibility

pub record Workspace : Type 0 where
  pub id : ℕ
  pub tenant_id : ℕ
  pub created_by : Option ℕ
  pub name : String
  pub self_serve : Bool

pub record Dataset : Type 0 where
  pub id : ℕ
  pub tenant_id : ℕ
  pub visibility : DatasetVisibility
  pub is_processed : Bool
  pub version : ℕ
  pub lineage_pointer : Option ℕ

pub record Document : Type 0 where
  pub id : ℕ
  pub tenant_id : ℕ
  pub uploaded_by : Option ℕ
  pub storage_pointer : Text
  pub format : Text
  pub name : Text
  pub content_text : Option Text

pub record Tracker : Type 0 where
  pub id : ℕ
  pub tenant_id : ℕ
  pub created_by : Option ℕ
  pub name : String
  pub schema_definition : String

pub data ConnectorType : Type 0 where
  postgres mysql sqlserver snowflake : ConnectorType

pub record ConnectorConfig : Type 0 where
  pub id : ℕ
  pub tenant_id : ℕ
  pub connector_type : ConnectorType
  pub name : String
  pub config : String
  pub created_by : Option ℕ

pub data ChatRole : Type 0 where
  user assistant : ChatRole

pub record ChatMessage : Type 0 where
  pub id : ℕ
  pub tenant_id : ℕ
  pub user_id : ℕ
  pub session_id : ℕ
  pub role : ChatRole
  pub content : Text
  pub tool_calls : Option (List Text)
