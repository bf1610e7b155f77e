-- ===== src/Safe.antt =====
-- The decimal numbers of src/safenumber/safenumber.cpp and the wide integers they stand on.
pub mod Word
pub mod Digits
pub mod Uint128
pub mod Uint256
pub mod Number
mod Tests
