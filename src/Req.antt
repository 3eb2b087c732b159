-- ===== src/Req.antt =====
-- src/req.cpp, src/req.h, src/function.cpp and the constants of src/ndsim_define.h: a request from
-- http_handler to its replies.
pub mod Post
pub mod Serving
pub mod Timer
pub mod Memory
pub mod Logs
pub mod Handler
pub mod Dispatch
