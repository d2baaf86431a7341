-- ===== src/Fs/Filter/Context.antt =====
-- What the filter of internal/io/fs/readfile_processor.go hands on: the local context of a grep,
-- told by looking ahead in the lines instead of by a buffer.
pub mod Steps
pub mod Selection
pub mod Closed
pub mod Open
