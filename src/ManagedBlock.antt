-- ===== src/ManagedBlock.antt =====
-- internal/managedblock: the service's region inside an authorized_keys file. Block is the text of the
-- region and of the file around it, Apply installs it in the file system.
pub mod Block
pub mod Apply
