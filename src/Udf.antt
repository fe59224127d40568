-- ===== src/Udf.antt =====
-- The SQL functions, kafka-cmd-*.c: what they share. A function has an _init() that sees the arguments
-- before the first row, and a main function for each row.
pub mod Connect
pub mod Disconnect
pub mod Send
pub mod Param
pub mod Info
pub mod Stats
pub mod Statement
pub mod Reading
pub mod Among
