-- ===== src/Server.antt =====
-- main/bacnet_server.c: the COV subscriptions, the notifications with their retries, the limit on
-- responses, and the turn of the task loop on a datagram.
pub mod Retry
pub mod Table
pub mod Notify
pub mod Limit
pub mod Packet
pub mod Start
