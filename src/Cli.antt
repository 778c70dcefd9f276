-- ===== src/Cli.antt =====
-- crates/jman-cli: the commands of the command line.
pub mod Scripts
