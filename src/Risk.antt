-- ===== src/Risk.antt =====
-- backend/app/services/risk.py and backend/app/services/benchmark.py, over the series of values of
-- Performance.
pub mod Drawdown
pub mod Fractions
pub mod Found
pub mod Worst
pub mod Statistics
pub mod Grid
pub mod Benchmark
pub mod Closes
pub mod Service
pub mod Heatmap
pub mod Months
pub mod Growth
pub mod Years
mod Tests
