-- ===== src/Migrations.antt =====
-- migrations/versions: the statements of the revisions, and what they do to the catalog of a
-- database.
pub mod Statements
pub mod Run
pub mod Initial
pub mod BaselineAuth
pub mod LayerWise
pub mod PlatformAdmin
pub mod Frame
pub mod Revisions
