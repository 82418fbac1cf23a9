-- ===== src/Rx.antt =====
-- ice-rpc-rx: the event vocabulary of a stream, the pull side that reads one, and the operators.
pub mod Event
pub mod Stream
pub mod Polls
pub mod Filtering
pub mod Transforming
pub mod Combining
pub mod Conditional
pub mod Recovery
pub mod Subject
pub mod Cancel
pub mod Utility
pub mod Creation
pub mod Consuming
