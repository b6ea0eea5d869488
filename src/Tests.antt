-- ===== src/Tests.antt =====
-- The theorems at concrete inputs, and runs of the code.
mod Samples
mod Packets
mod Senders
mod Loops
mod Sandboxes
mod Options
mod Programs
mod Filters
mod Views
mod Locks
mod Logs
mod Plugins
mod Ends
mod Unit
