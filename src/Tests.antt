-- ===== src/Tests.antt =====
-- Runs on concrete inputs, and the theorems at inputs that meet their hypotheses.
mod Dyadic
mod Fetch
mod Writes
mod Spending
mod Receipt
mod Merkle
mod Client
mod Schema
mod Ring
mod Token
mod Node
mod Merging
mod Sharded
mod Sql
mod Session
