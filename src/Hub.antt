-- ===== src/Hub.antt =====
-- The hub (hub/): the clients of its stages, and the pipeline that calls them.
pub mod Client
pub mod Pipeline
