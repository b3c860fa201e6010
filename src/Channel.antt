-- ===== src/Channel.antt =====
-- src/basilisp/concurrent_channel.py: channels of one event loop.
pub mod Waiters
pub mod Ops
pub mod Queue
pub mod Puts
pub mod Closing
pub mod Alts
