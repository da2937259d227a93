-- ===== src/Session.antt =====
-- The client of zccp_client.c and the broker of zccp_server.c together: what one of them sends is what
-- the other's handler gets. The router socket puts the client's routing id in front of a message,
-- and takes it off the broker's answer.
pub mod Greet
pub mod Subscribe
pub mod Publish
pub mod Stop
pub mod Examples
