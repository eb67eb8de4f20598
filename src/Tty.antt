-- ===== src/Tty.antt =====
-- The terminal (kernel/drivers/tty.hpp, kernel/drivers/tty.cpp).
pub mod Screen
pub mod Output
pub mod Keyboard
pub mod Cursor
pub mod Grid
pub mod Keys
