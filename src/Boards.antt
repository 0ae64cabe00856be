-- ===== src/Boards.antt =====
-- src/modules/boards: who may see and edit a board, link sharing, invitations and element batches.
pub mod Rows
pub mod Access
pub mod Sharing
pub mod Invitations
pub mod Members
pub mod Copies
pub mod Routes
mod Tests
mod RouteTests
