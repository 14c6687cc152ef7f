-- ===== src/Vm.antt =====
-- vm: the swap space.
pub mod Swap
