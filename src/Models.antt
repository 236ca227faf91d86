-- ===== src/Models.antt =====
-- libs/models: the rows of the database. An id (UUID), a time and a password hash are numbers or
-- texts that the program only compares and stores.
pub mod Tenancy
pub mod Access
pub mod Content
pub mod Jobs
pub mod Database
pub mod Schema
pub mod Session
