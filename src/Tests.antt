-- ===== src/Tests.antt =====
-- The theorems at concrete inputs, and runs of the definitions.
mod Host
mod StringList
mod IpList
mod Whitelist
mod FpWhitelist
mod Reply
mod Address
mod Strings
mod Transfer
mod Pieces
mod Control
mod Config
mod Login
mod DataChannel
mod KillFile
mod Session
mod SessionRuns
mod SessionReload
