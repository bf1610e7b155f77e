-- ===== src/Lib.antt =====
-- Verification library for uvm: the CBOR codec that contract storage passes through, the native token
-- contract, the native exchange of two assets that extends it, and the decimal numbers that contracts
-- compute with.
--
-- The program's parts and the files that model them. A contract's values are CBOR objects. An
-- object is written by the encoder to an output buffer, and read back by the decoder, which pulls
-- bytes from an input cursor and puts finished values into the containers that are still open. The
-- token contract is called by name through `invoke`; it keeps its state in the host's storage, whose
-- values are CBOR objects, and an evaluation drops what a call has stored when it throws. The uniswap
-- contract is a token contract whose tokens are shares of two pools; it calls the apis of the token
-- contract on that part of its state, computes prices with decimals, and asks the host to pay. The
-- decimals are a sign, a 128-bit number and a count of places, computed with integers of 128 and 256
-- bits that are built from uint64_t.
--   Base            shared names, tests on numbers, lists measured by numbers, integers, and
--                   association lists keyed by byte strings
--   Cbor.Value      include/cborcpp/cbor_object.h, src/cborcpp/cbor_object.cpp: `CborObject` as the
--                   data types CborObject, Items, Entries and Scalar; `force_as_int`
--   Cbor.Input      src/cborcpp/input.cpp: `input::input`, which takes its size as an int, `has_bytes`, the
--                   big-endian reads, `skip_bytes`
--   Cbor.Encoder    src/cborcpp/encoder.cpp: each call's value is the bytes that it puts
--   Cbor.Builder    src/cborcpp/decoder.cpp: `put_decoded_value`, on a heap of nodes, since the
--                   containers are shared by pointer while they are filled
--   Cbor.Decoder    src/cborcpp/decoder.cpp: `decoder::run`, one function for each state, `round` for
--                   one round of its loop, `run` for the whole; Decoder.Termination counts its rounds
--   Cbor.Codec      src/cbor_diff/cbor_diff.cpp: `cbor_encode`, `cbor_decode`, `cbor_deep_clone`
--   Cbor.Output     src/cborcpp/output_dynamic.cpp and output_static.cpp: the written bytes and the
--                   capacity; `grow` is the loop that doubles it
--   Cbor.Entries    the `std::map` of an object's entries: find, put and erase in key order
--   Cbor.Diff       src/cbor_diff/cbor_diff.cpp: `CborDiff::diff`
--   Cbor.RoundTrip  decoding after encoding, for the objects that IsCodable admits, and the limits
--   Token.Host      include/native_contract/native_contract_api.h and
--                   simplechain/src/simplechain/native_contract.cpp: the state of a call, and the
--                   operations on it as actions, which give a result or an exception and the state
--   Token.Numbers   `is_integral` and `std::stoll`, which read the amounts
--   Token.Contract  src/native_contract/native_token_contract.cpp: an action for each api
--   Token.Invoke    `invoke` of that file, and calls one after the other, as
--                   simplechain/src/simplechain/contract_evaluate.cpp makes them
--   Token.Texts     texts of numbers and commas for runs at concrete inputs
--   Token.Balances, Token.Moves, Token.Outcomes  the ledger `users`, the stores that move an amount,
--                   and reasoning about actions
--   Token.Transfers, Token.Spending, Token.Granting, Token.Offline, Token.Supply  the apis by what they
--                   do, and the supply over all of them
--   Uniswap.Host    the state of a uniswap contract over that of its token contract, and
--                   `transfer_to_address` of simplechain/src/simplechain/native_contract.cpp, which
--                   changes the balance changes of an evaluation's result
--   Uniswap.Prices  src/native_contract/native_uniswap_contract.cpp: its calculations with decimals
--   Uniswap.Contract, Uniswap.Liquidity, Uniswap.Exchange, Uniswap.Invoke  an action for each api of
--                   that file, and `invoke`
--   Uniswap.Whole, Uniswap.Rates, Uniswap.Rounding, Uniswap.Parts, Uniswap.Pools  what the calculations come to
--   Uniswap.Runs    how the calls that the apis share run
--   Uniswap.ChangeLists, Uniswap.Changes, Uniswap.Balances  payments, deposits and withdrawals
--   Uniswap.Selling, Uniswap.Orders  the exchange of one asset for the other, and the order for it
--   Uniswap.Reserves, Uniswap.Adding, Uniswap.Removing, Uniswap.Shares  liquidity, and the supply of
--                   its tokens
--   Uniswap.Offline the apis that only answer
--   Safe.Word       uint64_t arithmetic with its wrap-around, and how a run ends
--   Safe.Uint128    src/safenumber/safenumber.cpp: `simple_uint128_add` and the others as `add` and so
--                   on; Multi, Divmod and Printing hold the larger functions, Sums, Shifts, Width and
--                   Quotient what they compute
--   Safe.Uint256    the same for `simple_uint256_`; Product and Steps are the lemmas of multi and divmod
--   Safe.Digits     the characters that both `to_string` functions write
--   Safe.Number     `SafeNumber` and `compress_number`; Arithmetic, Comparison and Text hold the
--                   `safe_number_` functions, Compress and Truncation the normal form, Exact, Sum,
--                   Difference, Product, LongDivision, Division, Rests, Quota, Order, Equality, Whole and Reading
--                   what the functions compute
--
-- Bounds and fuel. A byte is a number below 256; the 32-bit and 64-bit wrap-around of sizes, tags and
-- integers is written out. `run` has two rounds for each byte and two more, which
-- Cbor.Decoder.Termination shows to be enough; reading the decoder's heap as an object goes as deep
-- as the heap has nodes; a buffer's loop has as much fuel as bytes are needed, since every round adds
-- one byte or more to a positive capacity. A loop over the bits of a wide integer has as many rounds as
-- the integer has bits; one over its digits has 128 or 256, since a base is 2 or more; the loops of
-- `compress_number` and of a product run down the count of places; a quotient has 33 rounds, since the
-- loop stops at the thirty-second place, and `safe_number_div_old` 17.
--
-- Parameters. The text of a double (a C++ stream) and its reading (`fc::to_double`) are parameters;
-- IsCodable asks of each double in an object that its reading undoes its text. `boost::split`,
-- `boost::trim` and what `std::strtod` leaves of a text are parameters of the token contract, and
-- nothing is asked of them. For the uniswap contract `fc::to_int64` and the reading of a deposit from
-- its JSON text are parameters too; the number of the head block and the ids of the registered assets
-- stand in its state. Its fast maps of assets are named by addresses, and an address is taken to be
-- neither "users" nor "allowed", which name the maps of the token contract. The events that it adds are
-- kept apart from those of its token contract. Bounds on its numbers, such as 10 ^ 16 for a pool, keep
-- a product of two inside 10 ^ 32, where the decimals are exact.
--
-- `uint64_pow` is a power of ten without rounding: up to 10 ^ 16, which is what numbers with at most 16
-- places ask for, the table or the double that `std::pow` gives hold it exactly.
--
-- Not modelled: allocation failure, logging, JSON output and the printing of objects; the gas limit
-- and deposits of an evaluation; the storage diff that the host keeps beside each change, and its finder
-- of native contracts; the native exchange contract of src/native_contract/native_exchange_contract.cpp;
-- the Lua virtual machine with its storage, collector and tables; the simple chain and its services.
pub mod Base
pub mod Cbor
pub mod Safe
pub mod Token
pub mod Uniswap
