-- ===== src/Teleop.antt =====
-- src/teleop_keyboard/teleop_keyboard.cpp: TeleopKeyboard::spin.
pub mod Key
pub mod Output
pub mod Loop
pub mod Sent
pub mod Notified
