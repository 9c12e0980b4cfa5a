-- ===== src/Tests.antt =====
-- Runs of the model at concrete inputs, over the crates of Tests/Models.
mod Models
mod Updates
mod Frames
mod Transfer
mod Sender
mod Slots
mod Peers
mod Wakes
mod Control
mod Reader
mod Manager
mod Serving
