-- ===== src/Tests.antt =====
-- Runs of the model at concrete inputs: each theorem that has conditions is applied where they
-- hold.
mod People
mod Access
mod Decisions
mod Files
mod Sessions
mod Cache
mod Stores
mod Plugins
mod Tokens
mod Auth
mod Router
mod Routes
mod Discovery
mod Monitor
mod Scans
mod Keys
mod Adapters
