-- ===== src/Tests.antt =====
-- The theorems at concrete inputs.
mod Fixtures
mod Headers
mod Edges
mod FileAccess
mod Logins
mod Hooks
mod Minted
mod Queue
mod Registry
mod Delivered
mod Window
mod Listed
mod Linked
mod Resolved
mod Profiles
