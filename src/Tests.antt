-- ===== src/Tests.antt =====
-- Runs of the modelled code on small inputs, and the theorems at concrete data.
mod Data
mod Codec
mod Graphs
mod Models
mod Versions
mod Settings
mod Editors
mod Builds
mod Commands
mod Audits
