-- ===== src/Table.antt =====
-- kafka-table.c: the table of parameters and topics, and the one producer.
pub mod Slots
pub mod Params
pub mod Describe
pub mod Registry
pub mod Connection
pub mod Sharing
