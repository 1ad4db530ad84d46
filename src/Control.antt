-- ===== src/Control.antt =====
-- internal/control/server.go: the HTTP server without the encoding of requests and responses.
pub mod Throttle
pub mod Rules
pub mod Access
pub mod Http
pub mod Login
pub mod Mfa
pub mod Users
pub mod Enroll
pub mod Heartbeat
pub mod Fleet
pub mod Forwarding
pub mod Api
