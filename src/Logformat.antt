-- ===== src/Logformat.antt =====
-- internal/mapr/logformat: how a log line becomes the fields of a query.
pub mod Default
pub mod Scan
pub mod GenericKv
pub mod Csv
pub mod Dtail
