-- ===== src/Waf.antt =====
-- internal/waf
pub mod Coraza
pub mod Http
pub mod Manager
pub mod Recorder
pub mod Address
pub mod Summary
pub mod Inspect
pub mod Middleware
