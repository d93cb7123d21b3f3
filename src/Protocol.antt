-- ===== src/Protocol.antt =====
-- src/lib/deskflow/ProtocolUtil.cpp: messages printed and scanned by a format.
pub mod Format
pub mod Write
pub mod Stream
pub mod Read
pub mod Exact
pub mod Fits
pub mod Length
pub mod RoundTrip
pub mod Percent
pub mod Packets
