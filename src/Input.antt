-- ===== src/Input.antt =====
-- The input service: managers/input_manager.py, managers/session_manager.py, cache/manager.py and
-- entities/session.py.
pub mod Limiter
pub mod Breaker
pub mod Store
pub mod Sessions
pub mod Manager
