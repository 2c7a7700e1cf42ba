-- ===== src/Usb/Pool.antt =====
-- The ticket pool of usbhandlers.c as a whole: the invariant that every operation of the display path
-- keeps, the interleavings of operations and completions, and the pool as its clients see it.
pub mod Held
pub mod Steps
pub mod Encoding
pub mod Operations
pub mod Fresh
