-- ===== src/Examples.antt =====
-- The applications under examples/ that use the C library.
pub mod Benchmark
pub mod Demo
pub mod Firmware
