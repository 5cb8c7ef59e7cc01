-- ===== src/Lib.antt =====
-- nkn-sdk-rust: a client of the NKN network.
--
-- A client (src/client.rs) sends messages to addresses (src/utils.rs) through a node. It encrypts a
-- payload for each destination, splits what it sends into messages of a bounded size, and signs each
-- destination with a signature chain (src/sigchain.rs), whose fields are written in the binary format
-- of src/serialization.rs. A session (src/session.rs) is a stream of bytes between two peers over
-- several connections (src/connection.rs), one for each pair of client ids: `write` cuts what it is
-- given into packets, numbers them with the sequence numbers of src/utils.rs and hands the numbers to
-- the connections, whose tasks send the packets, acknowledge what was received and resend what was not
-- acknowledged; `receive_with` takes the packets of the other end, and `read` gives their data out.
-- Payments (src/nanopay.rs) are transactions of a rising amount, of which only the last is sent on.
-- Transactions (src/tx.rs, src/payload.rs) are signed by a wallet (src/wallet.rs, src/signature.rs,
-- src/program.rs) and sent by RPC (src/rpc.rs), as the names of clients and the node to connect to are
-- asked for. A client connects, again where it must, and handles what the node sends: texts that steer
-- the connection, and messages, which go to the user. A multi-client (src/multiclient.rs) is several
-- clients of one account with a number in their addresses.
--
-- Which module models what:
--   Prelude: Boolean tests, lists, maps as association lists, the outcomes `Ok`, `Err` and panic, and
--     `i64` arithmetic.
--   Serialization: src/serialization.rs. Decoder is a reader written from the layout, RoundTrip what
--     the program's readers do with it.
--   Sequence: `next_seq`, `seq_in_between`, `compare_seq` and the order of `SeqElem` of src/utils.rs.
--   Floats: the interface to `f64`.
--   Connection: the struct and the methods of src/connection.rs; Tasks has one round of `tx`,
--     `send_ack` and `check_timeout` each.
--   Session: the struct of src/session.rs; Handshake has `dial`, `accept` and the handshake and close
--     packets; Write has `write`, the flush and the report of bytes read; Receive has `receive_with`
--     with the acknowledgements; Read has `read`. Reachable has the calls as steps, Meeting
--     two sessions that hear of each other.
--   Addresses: addresses and the cache of shared keys of src/utils.rs, `encrypt` and `decrypt` of
--     src/crypto.rs. Lossy is `String::from_utf8_lossy`.
--   Sigchain: src/sigchain.rs.
--   Client: `send_messages` of src/client.rs and all it calls, and `decrypt_payload`. Payloads and
--     Messages have the code, Sealing, Destinations, Batches, Splitting and Returning what holds of it.
--   NanoPay: `increase_amount` and the claimer of src/nanopay.rs. Totals is about claims and flushes,
--     Rising about the payer, Unverified about claims with the check that the source has.
--   Wallet: src/wallet.rs, with the seed and the address of src/account.rs and src/crypto.rs.
--   Tx: the messages of a transaction; Building has the constructors of src/tx.rs and src/payload.rs,
--     Signing the signature of src/wallet.rs, src/signature.rs and src/program.rs, Reading and
--     Verifying what holds of them, Wire an encoding for runs.
--   Errors: `NKNError` of src/error.rs; its `NcpError` is with the session.
--   Rpc: `rpc_call` of src/rpc.rs as workers that take turns, in any order. Rotation is about the order
--     of the servers, Moves has the turns by what they do, Workers is about invariants of a run, and
--     Answers, Finding, Ending and Sequential about calls.
--   Inbound: `handle_message` of src/client.rs; Asking has `Client::send`, `send_data`, `close`,
--     `send_receipt` and the loop of `handle_reply`, Delivery, Replies and Frame what holds of them.
--   Connecting: the loop of `connect` and `handle_reconnect` of src/client.rs, with Retries and Delays.
--   Multiclient: the prefixes of src/utils.rs, and the numbers, the addresses and the sending of
--     src/multiclient.rs. Decimal is about numbers as texts, Identifiers about addresses, Prefixes
--     about `add_identifier` and `remove_identifier`, Names about names.
-- A module Runs evaluates its component at concrete inputs.
--
-- Conventions:
--   A text is its UTF-8 bytes. A `u32` or `u64` is a natural number that wraps as in a release build,
--   and an `i64` an integer that wraps. A call that can wait or panic has an outcome that says so: in
--   Session, `blocked` stands for a wait on a channel or for a loop that does not end. A channel of
--   capacity one is an option, and in Inbound a list that has room for so many: a send into a full one
--   waits, and the model of the call ends there. A `HashMap` is a list of its entries, whose order stands for the map's.
--   Time is a number of nanoseconds that is passed to the call.
--
-- Bounds and fuel:
--   `ack_loop` and `advance` of Session.Receive run on 2^32 rounds, more than there are sequence
--   numbers; a loop that ran out would count as a wait, and receive_acks ends without one.
--   `collect_acks` runs on the size of the queue and one, and every round takes one off the queue or
--   ends. `read` runs on one round more than there are received packets; a round takes one out or ends.
--   `connect` runs on a number of rounds that is given; with a bound on the attempts one more than the
--   bound is enough, and without one, more than the number of the attempt that connects. The numbers of
--   a multi-client's clients run on two rounds more than there are sub-clients. A decimal text has ten
--   digits at most, as many as an `i32`.
--
-- Parameters, for code that is not in the repository: `F64` (the float operations), `BytesMut` (the
-- buffers of the crate `bytes`), `Crypto`, `WalletCrates` and `Ed25519` (the crates for hashes, hex,
-- signatures, boxes and ciphers), `Encoding`, `Decoding`, `Prost`, `encode` and `decode` (the protobuf
-- messages, whose code is generated, and the JSON of the node), `Random`, `is_match` (the crate
-- `regex`), `send_with` (the callback of a session), and `get_registrant`, `get_balance` and `send_raw`
-- (RPCs). What a server answers to a request is a relation, and what an attempt to connect comes to a
-- function. A claim takes the check of a transaction as an argument, of which `verify` is the one of
-- the source, a `todo!()`.
--
-- Not modelled: the tasks' locks and their interleaving within a call, `start_session`, `start_conn`,
-- `Client::new` and `connect_to_node` of src/client.rs, which start tasks and open the websocket, what
-- an error leaves in the cache of shared keys, the background flush of src/nanopay.rs, the JSON of
-- src/wallet.rs, the RPCs of src/rpc.rs that only name a method, the receiving task of
-- src/multiclient.rs, which ends in a `todo!()`, and the generated messages.
pub mod Prelude
pub mod Serialization
pub mod Sequence
pub mod Floats
pub mod Connection
pub mod Session
pub mod Addresses
pub mod Sigchain
pub mod Client
pub mod Rpc
pub mod Multiclient
pub mod Connecting
pub mod Inbound
pub mod Errors
pub mod Tx
pub mod NanoPay
pub mod Wallet
