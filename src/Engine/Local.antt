-- ===== src/Engine/Local.antt =====
-- lib/sync-engine.js: changes that the watcher saw under the sync folder.
pub mod Delete
pub mod DeleteLaws
pub mod Upload
pub mod Rename
pub mod RenameLaws
pub mod Modify
pub mod ModifyLaws
mod Settled
pub mod UploadLaws
