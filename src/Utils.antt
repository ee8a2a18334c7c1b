-- ===== src/Utils.antt =====
-- The helpers of Utils/ beside the mutex, which Log/World.antt models.
pub mod Singleton
