-- ===== src/Examples.antt =====
-- The laws applied to concrete inputs.
mod Semantic
mod Text
mod Runtime
mod Commands
mod Sessions
mod Builds
mod Graphs
mod Analysis
