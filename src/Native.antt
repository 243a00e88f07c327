-- ===== src/Native.antt =====
-- `validate_native_records` of benchmarks/serving_common.py: the closed stream that the simulator
-- writes: its request records, its iteration records and its summary.
pub mod Request
pub mod Iteration
pub mod Summary
pub mod Envelope
pub mod Stream
pub mod Examples
