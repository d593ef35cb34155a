-- ===== src/Performance.antt =====
-- backend/app/services/performance.py: the cash flows, the series of values, the time-weighted and
-- the money-weighted return, and the service that puts them together.
pub mod Until
pub mod Flows
pub mod Series
pub mod EachTime
pub mod Moments
pub mod Twr
pub mod Neutral
pub mod Window
pub mod Rates
pub mod Mwr
pub mod Service
pub mod Cached
pub mod Raises
pub mod Irr
mod Tests
pub mod Sampled
