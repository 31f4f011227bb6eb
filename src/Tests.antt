-- ===== src/Tests.antt =====
-- Concrete libraries and accounts on which the theorems are applied.
mod Demo
mod Accounts
mod Laws
mod Commits
mod Branches
mod Logs
mod Sessions
mod Conversions
mod Texts
mod Hosts
mod Threads
mod Caches
mod Undone
mod Enacted
mod Replies
