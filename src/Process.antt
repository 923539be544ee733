-- ===== src/Process.antt =====
-- windows/process.rs: the process behind an address. The tables of the operating system and the
-- path of a process are parameters; what is modelled is the two caches in front of them.
pub mod Sessions
pub mod Paths
pub mod Owners
pub mod Lookup
