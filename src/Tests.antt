-- ===== src/Tests.antt =====
-- Concrete runs of the components: the code of reckless/src at chosen inputs.
mod Samples
mod Ntoa
mod Floats
mod Buffers
mod Runs
mod Threads
mod Lines
mod Formatting
mod Signals
