-- ===== src/Http.antt =====
-- The HTTP connections (http_conn.cc, http_conn.h).
pub mod Conn
pub mod Sent
pub mod Route
pub mod Server
pub mod Received
pub mod Own
pub mod Steps
pub mod Answers
pub mod Answered
pub mod Delivery
