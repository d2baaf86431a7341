-- ===== src/Fs.antt =====
-- internal/io/fs: the statistics of a reader, and the filter that its lines pass through.
pub mod Stats
pub mod LineContext
pub mod Filter
pub mod Scan
