-- ===== src/Device.antt =====
-- modules/stream-device/src: the program that runs beside a device.
pub mod Control
pub mod Manager
