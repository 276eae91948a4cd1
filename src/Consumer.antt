-- ===== src/Consumer.antt =====
-- src/consumer: the process that stores traces and computes delays.
pub mod Descriptors
pub mod CpuMonitor
pub mod KernelMonitor
pub mod Listen
pub mod Double
pub mod Control
pub mod Options
pub mod Balance
pub mod Dummy
pub mod Account
pub mod ThreadData
pub mod Scan
pub mod Shared
pub mod Main
pub mod Receiver
mod ReceiverTests
pub mod Copier
pub mod Quarters
mod Tests
mod ListenTests
mod BalanceTests
mod DummyTests
mod AccountTests
mod OptionsTests
mod ScanTests
mod SharedTests
