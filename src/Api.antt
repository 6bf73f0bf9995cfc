-- ===== src/Api.antt =====
-- control-plane/api-server/src: the HTTP API, of which the authentication is modelled.
pub mod Users
pub mod Login
pub mod Tokens
pub mod Cookies
pub mod Sessions
mod Tests
