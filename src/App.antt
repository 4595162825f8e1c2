-- ===== src/App.antt =====
-- The application: internal/app.
pub mod Traffic
pub mod TokenHook
