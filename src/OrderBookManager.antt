-- ===== src/OrderBookManager.antt =====
-- OrderBookStore/include/OrderBookManager.hpp: the two managers, each with the book of every token.
pub mod Type2
pub mod Routing
pub mod Feed
pub mod Improved
