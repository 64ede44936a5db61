-- ===== src/Terminal.antt =====
-- The terminals: kernel/console.c, kernel/keyboard.c and kernel/tty.c.
pub mod State
pub mod Ring
pub mod Keymap
pub mod Console
pub mod Tty
pub mod Keys
pub mod Keyboard
mod Tests
