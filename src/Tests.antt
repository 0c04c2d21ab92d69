-- ===== src/Tests.antt =====
-- Examples: each theorem of the results with hypotheses, applied to concrete data.
mod Data
mod Quota
mod Usage
mod Orders
mod Payments
mod RateLimit
mod NetGuard
mod AgentRpc
mod AgentToken
mod Devices
mod Invites
mod Session
mod Channels
mod CliAuth
mod Prices
mod Workflows
