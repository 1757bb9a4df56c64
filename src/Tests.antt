-- ===== src/Tests.antt =====
-- Runs of the model at concrete values: one module for each group of files.
pub mod Instances
mod Dumps
mod Arrays
mod Values
mod Texts
mod Queues
mod Nodes
mod Trees
mod Zones
mod Limits
mod Requests
mod Displays
mod Upstreams
mod Metrics
mod Statuses
mod Pages
mod Controls
