-- ===== src/Window.antt =====
-- Window
pub mod Placement
pub mod Size
pub mod State
mod Tests
