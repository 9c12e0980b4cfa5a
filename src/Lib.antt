-- ===== src/Lib.antt =====
-- Verification of qlaster, a library that fans account, transaction and slot updates out from one
-- sender to local consumers over rings in shared memory.
--
-- The program. The sender encodes an update (src/types.rs) and pushes the frame onto the ring of each
-- subscribed consumer (src/shm/ring.rs), which pops it and decodes it. Control frames, a subscription
-- or a ping of the client and the handshake of the sender, go over a Unix-domain socket in frames of
-- their own (src/wire.rs). Both sides keep latency metrics (src/metrics.rs).
--
-- What models which part.
--   Error                   src/error.rs: `QlasterError`, and `Result` with a third case for a panic.
--   Extern                  the crates outside the repository, as records of the operations that the
--                           code calls, each with its documented laws as a second record.
--   Types                   src/types.rs: constants and `ensure_wire`; its children:
--     Cursor                `take_exact` and the reads at a cursor, which is passed in and returned.
--     Header                lemmas on the checks that every parser starts with.
--     AccountPayload, TransactionPayload   the payload types with their size limit.
--     Compression           `should_attempt_lz4` and the choice of the payload on the wire.
--     Account, Transaction, Slot           the updates: `encode_parts_at`, `encode`,
--                           `Decoded…::parse`, `decode_with_meta`, `decode_owned_with_meta`.
--     Token, Subscription, Ping, Ready, ReadyShm   the control frames and their wire structs.
--     Frames                `decode_client_frame`, `decode_server_frame` and its variants.
--   Wire                    src/wire.rs: `read_framed` and `write_framed` over any stream.
--   Ring                    src/shm/ring.rs: `create`, `try_push`, `close`, `try_pop` over any byte
--                           queue; Ring/Spec is the bounded queue that they are held against.
--   Transport               src/transport.rs: `SlotSink`, with `try_push` as `sink_push` and `close` as
--                           `sink_close`.
--   Sender/Filter           src/sender/mod.rs: `SubscriptionFilter`.
--   Sender/Slots            src/sender/mod.rs: the slots of `ConnectionManager`, lookup by token,
--                           `touch_ping` and `find_free_slot`, called one after the other.
--   Sender/Dispatch         src/sender/mod.rs: the three `dispatch_..._update` and `push_to_entry`.
--   Sender/Upsert           src/sender/mod.rs: `upsert_shm`.
--   Sender/Invariant        what holds of the manager between calls, and sequences of calls.
--   Sender/Connection       src/sender/shm.rs: `bind_listener`, `handle_uds_connection`.
--   Sender/Tasks            src/sender/mod.rs: the dispatchers; src/sender/shm.rs: `run_listener`.
--   Consumer/Reader         src/consumer/shm.rs: `run_reader`, from the ring into the three queues, with
--                           the outcome of `AsyncEventFd::new` as an argument.
--   Consumer/Control        src/consumer/shm.rs: the handshake, `send_subscription`, `send_ping`.
--   Eventfd                 src/shm/eventfd.rs: `notify`, `drain` and `wait`, with both backends.
--   Uds                     src/shm/uds.rs: a frame with a descriptor, sent and received.
--   Metrics                 src/metrics.rs: the aggregators, `record` being `record_us` here and the
--                           counter's `flush` being `flush_counter`.
--   Base                    lists, words and tests on the native numbers; Tests: runs at concrete
--                           inputs over concrete crates.
--
-- How state and numbers are modelled. A method takes the state and returns it. Bytes are numbers; a
-- theorem that needs them below 256 says so. An integer of w bits is a number, with the wrap-around
-- of `fetch_add` and the saturation of `saturating_sub` written out, and `usize` has 64 bits. What
-- `unix_time_nanos` returns is an argument. Indexing out of range is `panicked`. The message that the
-- code formats into an error is kept as the data it prints, an error of the system as its kind.
--
-- Bounds. The loop over the slots counts down from their number, which is ten. `next_power_of_two`
-- doubles at most 63 times, which reaches every `usize` that has such a power; the theorem on it asks
-- for at most 2^63. Loops that the outside ends run on fuel, and their theorems say how much is
-- enough: the drain of the reader more than there are frames, a connection more than there are frames
-- of its client, a loop over an interrupted system call more than there are signals to come, and the
-- drain of a pipe more than the pipe has room.
--
-- Not modelled. The file behind a ring (`Drop`) and the mapping; the relaxed interleavings of the
-- atomics, and the tasks that call a manager at the same time, so that a `compare_and_swap` which
-- fails is not met; cancelled and aborted tasks; the channels between the tasks of the sender.
pub mod Base
pub mod Error
pub mod Extern
pub mod Wire
pub mod Ring
pub mod Types
pub mod Metrics
pub mod Transport
pub mod Sender
pub mod Eventfd
pub mod Uds
pub mod Consumer
pub mod Tests
