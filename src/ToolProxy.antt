-- ===== src/ToolProxy.antt =====
-- execution-plane/tool-proxy/src/index.ts: the service that calls tools on behalf of agents.
pub mod Ipv4
pub mod Args
pub mod Fetch
pub mod Urls
pub mod Prepare
pub mod Call
mod Tests
