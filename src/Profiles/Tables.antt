-- ===== src/Profiles/Tables.antt =====
-- What profiles/repository.py asks of the tables, and its laws.
pub mod Query
pub mod Statements
pub mod Rows
pub mod Consistent
pub mod Membership
pub mod Transition
pub mod Works
