-- ===== src/Tests.antt =====
-- Runs of the models at concrete inputs, by component.
mod Breakers
mod Gateway
mod Stores
mod Caches
mod Routes
mod Stages
mod Decisions
mod Rooms
mod Logins
mod Inputs
mod Tokens
mod Forwards
mod Reports
mod Engines
mod Intents
