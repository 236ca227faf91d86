-- ===== src/Planner.antt =====
-- apps/planner and libs/llm_provider: one turn of the chat with the assistant.
pub mod Intent
pub mod Provider
pub mod Rag
pub mod Tools
pub mod Turn
pub mod Examples
