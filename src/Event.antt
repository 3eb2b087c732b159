-- ===== src/Event.antt =====
-- src/event.cpp and src/event.h.
pub mod Custom
pub mod Socket
pub mod Buffer
pub mod Timer
pub mod TsList
