-- ===== src/Programs.antt =====
-- The functions main of src/teleop_keyboard and src/mbot_driver.
pub mod Keyboard
pub mod MBotDriver
pub mod Whole
