-- ===== src/Weather.antt =====
-- The weather of QWeather, firmware/components/weather.
pub mod Values
pub mod Parser
pub mod Configuration
pub mod Titles
pub mod Selection
pub mod Task
pub mod Ranges
pub mod Fair
pub mod Refresh
pub mod Runs
mod Examples
