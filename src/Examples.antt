-- ===== src/Examples.antt =====
-- Concrete runs of the modelled code.
mod Text
mod Packets
mod Messages
mod Clipboards
mod Transfers
mod Screens
mod World
mod Cursors
mod Sessions
