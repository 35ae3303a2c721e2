-- ===== src/Tests.antt =====
-- Runs of the definitions, and the theorems at inputs that meet their hypotheses.
mod Fake
mod Nodes
mod Scaling
mod Cluster
mod Jobs
mod Loop
mod Services
mod Journeys
mod Lifetimes
mod Alone
mod Launch
mod Endings
mod Streams
mod Provider
mod Instances
mod Orders
mod Programs
