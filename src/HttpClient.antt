-- ===== src/HttpClient.antt =====
-- src/http_client.cpp and src/http_client.h: outgoing requests over libevent's evhttp. What the
-- code needs of libevent is a world of handles: the uris and connections that are live, newest
-- first, the event bases that were told to leave their loop, and the requests that were made.
-- Freeing a handle that is not live, and reading through null, is a fault, `none`. A write behind
-- the end of a heap block is counted in `overrun`, and the run goes on.
pub mod World
pub mod Request
pub mod Target
pub mod Overrun
pub mod Handles
pub mod Owning
pub mod Callbacks
pub mod Lifetime
