-- ===== src/Installer.antt =====
-- installer/backup_archive.py: the archive of a backup, and its restoration.
pub mod Io
pub mod Staging
pub mod Tar
pub mod Apply
pub mod Cleanup
pub mod Disk
pub mod Metadata
pub mod Names
pub mod Restore
pub mod Extract
pub mod Json
pub mod Manifest
