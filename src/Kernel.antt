-- ===== src/Kernel.antt =====
-- lib/kernel: the data structures and the arithmetic that the kernel's parts share.
pub mod Bitmap
pub mod FixedPoint
pub mod Lists
pub mod Hash
