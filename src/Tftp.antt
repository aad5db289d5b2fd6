-- ===== src/Tftp.antt =====
-- tftp/tftp.go: the read-only TFTP server.
pub mod Packet
pub mod Request
pub mod Send
pub mod Transfer
pub mod Serve
