-- ===== src/Video.antt =====
-- wire/src/video: the framing of encoded frames and the H.264 bitstream helpers.
pub mod Transport
pub mod Bitstream
mod Tests
