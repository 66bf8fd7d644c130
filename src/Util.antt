-- ===== src/Util.antt =====
-- librereuse/util: the helper classes and templates.
pub mod Bitmap
pub mod Chunk
pub mod Csv
pub mod Stats
mod Tests
