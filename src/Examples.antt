-- ===== src/Examples.antt =====
-- Runs of the model on concrete inputs.
pub mod Data
pub mod Cursors
mod Reading
mod Configuring
mod Histories
pub mod Storing
mod Running
pub mod Answering
mod Talking
