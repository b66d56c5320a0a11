-- ===== src/Proxmox.antt =====
-- internal/proxmox: the client of a Proxmox cluster.
pub mod Session
pub mod Client
pub mod Messages
pub mod Adapter
pub mod Guest
pub mod Waits
pub mod Effects
pub mod Commands
