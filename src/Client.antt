-- ===== src/Client.antt =====
-- blindrange/client.py: the owner of a database.
-- Client/Gallop is the search for the ends of chains, Client/Index the counters of the index and
-- the aggregates that are read from them, Client/Fetch the reads from the replicas, Client/Writes the
-- replicated writes, and Client/Spending the tokens that pay for them.
pub mod Gallop
pub mod Index
pub mod Fetch
pub mod Writes
pub mod Spending
