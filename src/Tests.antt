-- ===== src/Tests.antt =====
-- Tests, and each theorem at an input that meets its hypotheses.
mod Data
mod Formatter
mod Logger
mod Manager
mod Db
mod Config
mod Memory
mod Interface
mod Ordering
mod Listener
mod Recovery
mod Threads
