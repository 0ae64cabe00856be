-- ===== src/Workspaces.antt =====
-- src/modules/workspaces: the members of workspaces and the invitations to them.
pub mod Members
mod Tests
