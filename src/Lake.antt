-- ===== src/Lake.antt =====
-- packages/data-lake/data_lake: the hash chains of the lake.
pub mod Chain
pub mod Ledger
