-- ===== src/Linmot.antt =====
-- The crate linmot: the wire protocol of the drive.
pub mod Units
pub mod Reader
pub mod Writer
pub mod Bitflags
pub mod Mci
pub mod Udp
