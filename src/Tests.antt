-- ===== src/Tests.antt =====
-- Tests of the definitions, and the theorems at concrete inputs.
mod ToyCodec
mod Scene
mod Vaults
mod Sessions
mod Git
mod Commands
mod Lines
mod Imports
mod Exports
mod Wires
mod Cli
mod Setups
mod Readers
