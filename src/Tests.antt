-- ===== src/Tests.antt =====
-- Runs of the definitions on small inputs, and the library applied to them.
mod Data
mod Disk
mod Containers
mod Replay
mod Contents
mod Inputs
mod Holes
mod Device
mod Tools
mod Ageing
mod Names
mod Lines
