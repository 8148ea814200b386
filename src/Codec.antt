-- ===== src/Codec.antt =====
-- notmyfault/core/value_codec.py: data values at the border to JSON.
pub mod Value
pub mod Encode
pub mod Decode
pub mod Roundtrip
pub mod Json
mod Tests
