-- ===== src/Weather.antt =====
-- simple_pubsub_weather_report: a publisher of weather reports, and subscribers by city.
pub mod Report
pub mod Frames
pub mod Rounds
pub mod Broadcast
