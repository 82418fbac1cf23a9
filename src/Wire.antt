-- ===== src/Wire.antt =====
-- ice-rpc/src/types: the header, the identifiers and the events that travel between processes.
pub mod CorrelationId
pub mod Fresh
pub mod Kind
pub mod Event
pub mod Hash
pub mod Buckets
pub mod Trace
pub mod Header
