-- ===== src/Decision.antt =====
-- The decision service (decision/): the catalog of actions, the features of a request, and the rules.
pub mod Catalog
pub mod Features
pub mod Rules
pub mod Ensemble
pub mod Engine
pub mod Service
