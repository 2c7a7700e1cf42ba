-- ===== src/Usb.antt =====
-- drivers/linux-driver/src/usbhandlers.c, by its parts.
pub mod Rle
pub mod Device
pub mod Tickets
pub mod Bitblt
pub mod Commands
pub mod Image
pub mod Pool
pub mod Status
pub mod Probe
pub mod Runs
