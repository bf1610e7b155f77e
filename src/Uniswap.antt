-- ===== src/Uniswap.antt =====
-- The exchange of two assets of src/native_contract/native_uniswap_contract.cpp, a token contract whose
-- tokens are shares of a pool of both.
pub mod Host
pub mod Prices
pub mod Contract
pub mod Liquidity
pub mod Exchange
pub mod Runs
pub mod Pools
pub mod Whole
pub mod Rates
pub mod Rounding
pub mod Parts
pub mod ChangeLists
pub mod Changes
pub mod Balances
pub mod Selling
pub mod Reserves
pub mod Adding
pub mod Removing
pub mod Shares
pub mod Invoke
pub mod Orders
pub mod Offline
mod Tests
