-- ===== src/Shared.antt =====
-- ext/yrby/src/shared.rs: what every live handle of the extension shares.
pub mod Index
pub mod Units
