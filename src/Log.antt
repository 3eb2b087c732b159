-- ===== src/Log.antt =====
-- src/log.cpp and src/log.h: the logger.
pub mod Data
pub mod Line
pub mod Levels
pub mod Printf
pub mod Ring
pub mod Session
pub mod Setup
pub mod Thread
pub mod Wake
