-- ===== src/Kernel.antt =====
-- src/kernel_dilation/sleep_dilation.c: the kernel module that stretches sleeps.
pub mod Sysfs
pub mod Show
pub mod Sleep
pub mod Dilation
pub mod Lifecycle
mod Tests
mod ShowTests
