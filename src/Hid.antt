-- ===== src/Hid.antt =====
-- src/hid.rs and src/hid/messages.rs: the handheld controller.
pub mod Messages
pub mod Screen
pub mod Input
pub mod Variables
pub mod Ui
pub mod Device
