-- ===== src/Safety/Functions.antt =====
-- The SQL functions, kafka-cmd-*.c, over the table: what they promise to a session.
pub mod Arguments
pub mod Connecting
pub mod Creating
pub mod Params
pub mod Sending
pub mod Served
pub mod Inits
pub mod Checks
pub mod Texts
pub mod Answering
pub mod Interleaved
pub mod Keeping
pub mod Accounting
pub mod Counts
