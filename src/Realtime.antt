-- ===== src/Realtime.antt =====
-- The Socket.IO service (src/modules/realtime/socketio): who is in a board's room, the limits on a
-- connection's events, the connection's state and the handlers of its events.
pub mod Participants
pub mod Throttle
pub mod Payload
pub mod Session
pub mod Handlers
pub mod Ticks
pub mod Crdt
mod Tests
mod ParsingTests
mod CrdtTests
pub mod Parsing
pub mod Identity
pub mod Join
