-- ===== src/Tests.antt =====
-- Runs of the model on concrete inputs.
mod Samples
mod Wire
mod Monitor
mod Rx
mod Transport
mod Server
mod Provision
mod Observer
mod Operators
mod Subjects
mod Services
mod Threads
mod Scans
