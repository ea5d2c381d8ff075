-- ===== src/Drive.antt =====
-- src/drive.rs: the drive thread.
pub mod Words
pub mod Predict
pub mod Clamp
pub mod Connection
pub mod Arrival
pub mod Next
pub mod Tick
