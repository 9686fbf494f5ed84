-- ===== src/Http.antt =====
-- reactor/http.
pub mod Context
pub mod Codec
