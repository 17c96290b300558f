-- ===== src/WorkerExtension.antt =====
-- src/worker-extension.ts: the extension of Pi that makes it a Worker. Its files hold the store of the
-- start instruction, and the bridge between Pi and the host.
pub mod StartStore
pub mod WriteOnce
pub mod Bridge
