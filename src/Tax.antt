-- ===== src/Tax.antt =====
-- Korean capital gains tax on foreign shares: the matching of sales with lots.
pub mod Lots
pub mod Fifo
pub mod Average
mod Tests
