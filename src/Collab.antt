-- ===== src/Collab.antt =====
-- src/modules/collaboration: mutations, the board state in Redis, presence and persistence.
pub mod Element
pub mod Mutation
pub mod Locks
pub mod Cascade
pub mod Board
pub mod Persistence
pub mod Presence
pub mod MutationLock
pub mod Processor
pub mod Store
pub mod Batch
pub mod Tests
