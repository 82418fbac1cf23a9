-- ===== src/Transport.antt =====
-- ice-rpc/src/transport: the two sides of a channel.
pub mod Fold
pub mod Codec
pub mod Responses
pub mod Client
pub mod EndToEnd
pub mod Calls
pub mod Dispatcher
pub mod Hub
pub mod Server
pub mod Publish
pub mod Registration
pub mod Notify
pub mod Undecodable
pub mod Request
pub mod Serve
pub mod Ambient
pub mod Open
pub mod Pump
