-- ===== src/Evm.antt =====
-- evm: the virtual machine.
pub mod Word
pub mod Analysis
pub mod Contract
pub mod Stack
pub mod Sizes
pub mod Gas
pub mod Memory
pub mod Calls
pub mod Creation
mod Examples
