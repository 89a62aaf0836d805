-- ===== src/Tests.antt =====
-- Concrete numbers and a concrete page, and the theorems at them.
mod Fixed
mod Html
mod Charts
mod Pages
mod Queues
mod Scenarios
mod Shutdown
mod Counters
mod Agents
mod Consumers
mod Indicators
mod Specifications
