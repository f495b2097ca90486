-- ===== src/Examples.antt =====
-- Concrete runs, and the theorems at concrete inputs.
pub mod Fixtures
mod Dispatching
mod Leaving
mod Running
mod Serving
mod Preparing
mod Loading
mod Registering
mod Unpacking
mod Configuring
mod Connecting
mod Scripting
mod Decoding
mod Calling
mod Commands
mod Starting
mod Reading
