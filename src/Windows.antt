-- ===== src/Windows.antt =====
-- The Windows drivers: UsbTransportUmdf, which owns the USB device, UsbDisplayIdd, whose frames it sends,
-- and UsbTouchHidUmdf, which reports its touches.
pub mod Transport
pub mod Pipeline
pub mod Present
pub mod Touch
mod Runs
