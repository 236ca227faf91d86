-- ===== src/Api.antt =====
-- apps/api: the handlers of the HTTP routes. Each takes the caller, the body, the database and
-- what it draws from outside (the time, new ids, a random password), and answers with the new
-- database or an error.
pub mod Deps
pub mod Approvals
pub mod Trackers
pub mod Users
pub mod Platform
pub mod Teams
pub mod Tickets
pub mod Requests
pub mod Auth
pub mod Workspaces
pub mod Documents
pub mod Ingestion
pub mod Chat
pub mod Startup
pub mod Examples
