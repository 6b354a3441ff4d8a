-- ===== src/Report.antt =====
-- The report service (report/): the storage of reports, the engine that renders and stores them, and
-- the service with its cache.
pub mod Storage
pub mod Engine
pub mod Service
