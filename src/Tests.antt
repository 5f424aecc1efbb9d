-- ===== src/Tests.antt =====
-- Concrete frames, controllers and runs: tests of the definitions, and each theorem at an input.
mod Frames
mod Runs
mod Transfers
mod Queues
mod Devices
mod Backends
mod Programs
mod TestDrivers
mod Kernel
mod Mains
mod Interleavings
mod Threads
mod Atomic
mod Prints
mod Midway
