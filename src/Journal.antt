-- ===== src/Journal.antt =====
-- internal/io/journal: the filter of the systemd journal reader, and its agreement with the
-- filter of the file reader.
pub mod Filter
pub mod Mirror
pub mod Steps
pub mod Agreement
