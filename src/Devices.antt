-- ===== src/Devices.antt =====
-- devices: block devices and the queue between interrupt handlers and threads.
pub mod Block
pub mod Intq
