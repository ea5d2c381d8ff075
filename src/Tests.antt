-- ===== src/Tests.antt =====
-- Tests, and an instance of each theorem at concrete inputs.
mod Flags
mod Drive
mod Linmot
mod Core
mod Hid
mod Ui
mod WebSocket
mod Device
mod Cli
mod Metrics
