-- ===== src/App.antt =====
-- The application on top of the library: the directory app.
pub mod Comments
pub mod Blacklist
pub mod Utils
pub mod Dispatcher
