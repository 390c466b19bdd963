-- ===== src/Proxy.antt =====
-- src/proxy/proxy.c: the proxy between a server program and the group, and the replay of requests.
pub mod State
pub mod Submit
pub mod Action
pub mod Storage
pub mod Numbers
pub mod Keys
pub mod Copies
pub mod Restore
pub mod Loss
pub mod Tests
