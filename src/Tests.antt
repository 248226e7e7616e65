-- ===== src/Tests.antt =====
-- The theorems at concrete inputs, and runs of the models.
mod Codec
mod Grouping
mod Devices
mod Reading
mod Writing
mod Settings
mod Serving
mod Running
mod Publishing
mod Files
mod Polling
mod Launching
