-- ===== src/Monitor.antt =====
-- ice-rpc-monitor: the out-of-band observer.
pub mod Loss
pub mod Correlate
pub mod Metrics
pub mod Collector
pub mod Histogram
pub mod Traces
pub mod Health
