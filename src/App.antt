-- ===== src/App.antt =====
-- src/app, and the commands of src/main.cpp.
pub mod Config
pub mod Account
pub mod Commands
