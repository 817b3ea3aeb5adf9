-- ===== src/Recording.antt =====
-- wire-app/src/recording.rs: one file per speaker of a recorded call.
pub mod Calendar
pub mod Wav
pub mod Tap
pub mod File
pub mod Session
mod Tests
