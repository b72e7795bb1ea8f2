-- ===== src/Http.antt =====
-- The HTTP parts of lib/: requests, responses, the parser and the server that ties them to
-- connections.
pub mod Text
pub mod Request
pub mod Response
pub mod Parser
pub mod Server
