-- ===== src/People.antt =====
-- The members of a workspace: their table, their sign-in and their invitations (src/users, src/auth,
-- src/invites).
pub mod Users
pub mod Auth
pub mod Invites
