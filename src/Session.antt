-- ===== src/Session.antt =====
-- src/controlthread.cc: `CControlThread::mainloop` and what it calls: the session of one client.
pub mod State
pub mod Relink
pub mod Commands
pub mod Admin
pub mod Configure
pub mod Help
pub mod Client
pub mod LoginReplies
pub mod DataReplies
pub mod Replies
pub mod Mainloop
pub mod Keeps
pub mod Leads
pub mod Invariant
pub mod ClientKeeps
pub mod AdminKeeps
pub mod SiteKeeps
pub mod DataKeeps
pub mod Rounds
pub mod Whole
pub mod Guard
pub mod Killed
pub mod Names
pub mod Logins
pub mod Relinked
pub mod Login
pub mod Passive
pub mod Reload
