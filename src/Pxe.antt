-- ===== src/Pxe.antt =====
-- pxe/pxe.go: the PXE boot server.
pub mod Parse
pub mod Reply
pub mod Serve
