-- ===== src/Base/Bytes.antt =====
-- Byte strings (`std::string`), and what the C++ library does with them.
mod Defs
mod Laws
unfoldable pub use Defs.*
pub use Laws.*
