-- ===== src/Util.antt =====
-- src/demagnetize/util.py.
pub mod InfoPiecer
pub mod Collect
pub mod InfoHash
pub mod Random
pub mod Identity
pub mod Pathname
