-- ===== src/Sdk.antt =====
-- The user-mode SDK (drivers/usermode-sdk/rpusbdisp-drv): its run-length encoder.
pub mod Rle
pub mod Packets
pub mod Device
pub mod Agreement
mod Runs
