-- ===== src/Storage.antt =====
-- The rows that the stores keep: the tables of src/posttrade/storage, `fills`, `positions` and
-- `planted_anomalies` (book_store.py) and `ticks` (timeseries_store.py).
pub mod Rows
pub mod Book
pub mod Keys
pub mod Ticks
mod Tests
