-- ===== src/Llm.antt =====
-- The LLM service (llm/): the per-provider rate limiter, the model catalog, and the router.
pub mod Limiter
pub mod Catalog
pub mod Router
