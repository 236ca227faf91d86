-- ===== src/Migrations/LayerWise.antt =====
-- migrations/versions/0003_layer_wise_additions.py: the texts of documents and tickets, connectors and the transcript of the chat.
use autonomous_iq.Prelude.{List, [], ◌∷◌}
use autonomous_iq.Migrations.Statements.{
  uuid, text, jsonb, varchar, enum, cascade, set_null, create_table, drop_table, add_column,
  drop_column, create_index, create_enum, drop_type, column, key, required, default, on_update,
  refers_to, created_at, updated_at, table, index, Table, Enum, Statement,
}

abbrev pub connector_type_enum : Enum
connector_type_enum = record {
  name = "connector_type";
  values = "postgres" ∷ "mysql" ∷ "sqlserver" ∷ "snowflake" ∷ [];
}

abbrev pub connector_configs_table : Table
connector_configs_table = table "connector_configs" (
    key (column "id" uuid)
    ∷ required (refers_to "tenants" cascade (column "tenant_id" uuid))
    ∷ required (column "connector_type" (enum "connector_type"))
    ∷ required (column "name" (varchar 255))
    ∷ required (default "{}" (column "config" jsonb))
    ∷ refers_to "users" set_null (column "created_by" uuid)
    ∷ created_at
    ∷ on_update updated_at
    ∷ [])

abbrev pub chat_role_enum : Enum
chat_role_enum = record { name = "chat_role"; values = "user" ∷ "assistant" ∷ [] }

abbrev pub chat_messages_table : Table
chat_messages_table = table "chat_messages" (
    key (column "id" uuid)
    ∷ required (refers_to "tenants" cascade (column "tenant_id" uuid))
    ∷ required (refers_to "users" cascade (column "user_id" uuid))
    ∷ required (column "session_id" uuid)
    ∷ required (column "role" (enum "chat_role"))
    ∷ required (column "content" text)
    ∷ column "tool_calls" jsonb
    ∷ created_at
    ∷ on_update updated_at
    ∷ [])

abbrev pub upgrade : List Statement
upgrade =
    add_column "documents" (required (default "untitled" (column "name" (varchar 255))))
    ∷ add_column "documents" (column "content_text" text)
    ∷ add_column "tickets" (required (default "Untitled ticket" (column "title" (varchar 255))))
    ∷ add_column "tickets" (column "description" text)
    ∷ create_enum connector_type_enum
    ∷ create_table connector_configs_table
    ∷ create_index "connector_configs" (index "ix_connector_configs_tenant_id" ("tenant_id" ∷ []))
    ∷ create_enum chat_role_enum
    ∷ create_table chat_messages_table
    ∷ create_index "chat_messages" (index "ix_chat_messages_tenant_id" ("tenant_id" ∷ []))
    ∷ create_index "chat_messages" (index "ix_chat_messages_user_id" ("user_id" ∷ []))
    ∷ create_index "chat_messages" (index "ix_chat_messages_session_id" ("session_id" ∷ []))
    ∷ []

abbrev pub downgrade : List Statement
downgrade =
    drop_table "chat_messages"
    ∷ drop_type "chat_role"
    ∷ drop_table "connector_configs"
    ∷ drop_type "connector_type"
    ∷ drop_column "tickets" "description"
    ∷ drop_column "tickets" "title"
    ∷ drop_column "documents" "content_text"
    ∷ drop_column "documents" "name"
    ∷ []
