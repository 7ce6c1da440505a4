-- ===== src/Examples.antt =====
-- Tests on concrete inputs, and each theorem applied at one: a module per part of the program.
pub mod Suspensions
pub mod Transitions
pub mod Configurations
pub mod Operations
pub mod Environments
pub mod Rotations
pub mod Services
pub mod TwoKeys
pub mod RegistryValues
pub mod Broker
pub mod Pipe
