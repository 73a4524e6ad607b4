-- ===== src/Market.antt =====
-- The A-share indices, firmware/components/market.
pub mod Tokens
pub mod Search
pub mod Strings
pub mod Parser
pub mod Szse
pub mod Task
pub mod Whole
pub mod Runs
pub mod Waits
pub mod Slots
pub mod Sse
pub mod Behind
pub mod Answers
pub mod Quotes
mod Examples
