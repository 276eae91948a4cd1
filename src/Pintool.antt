-- ===== src/Pintool.antt =====
-- src/pintool: the Pin client.
pub mod BufferList
pub mod Statistics
pub mod Representative
pub mod Limit
pub mod Fini
pub mod PrettyTable
pub mod ThreadFile
pub mod Connect
pub mod Main
pub mod Callbacks
pub mod Instrument
pub mod Routines
mod Tests
mod BufferTests
mod LimitTests
mod InstrumentTests
mod EndTests
