-- ===== src/Log.antt =====
-- The logging library: Log/Log.h and Log/Log.cpp.
pub mod Level
pub mod Event
pub mod Formatter
pub mod World
pub mod Appender
pub mod Logger
pub mod Manager
pub mod Config
pub mod Threads
