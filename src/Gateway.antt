-- ===== src/Gateway.antt =====
-- The Gateway: edge authentication, path rules, routing, and the login pages.
pub mod Rules
pub mod Authenticate
pub mod Proxy
pub mod Bff
pub mod EndToEnd
pub mod Resolver
