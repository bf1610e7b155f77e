-- ===== src/Token.antt =====
-- The token contract of src/native_contract/native_token_contract.cpp.
pub mod Host
pub mod Numbers
pub mod Contract
pub mod Invoke
pub mod Balances
pub mod Moves
pub mod Outcomes
pub mod Transfers
pub mod Spending
pub mod Granting
pub mod Offline
pub mod Supply
pub mod Texts
mod Tests
