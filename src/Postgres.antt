-- ===== src/Postgres.antt =====
-- src/brunost_judge/postgres_store.py: the store on PostgreSQL. Its tables hold the same columns as
-- the SQLite tables, so they are the tables of `Store`. Each method is one transaction, and one
-- step. What its columns do with the values that are written is a parameter.
pub mod Columns
pub mod Submit
pub mod Claim
pub mod Finish
pub mod Deliveries
pub mod Registry
pub mod Steps
pub mod Capable
pub mod Refinement
mod Tests
