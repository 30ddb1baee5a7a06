-- ===== src/Tests.antt =====
-- Concrete runs of the modelled code, and the theorems applied to them.
mod Mapper
mod Gamepad
mod Mobile
mod Receiver
mod Bridge
mod Pairing
mod Setup
mod KeyboardBench
mod Storage
mod Config
mod Identity
