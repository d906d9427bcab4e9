-- ===== src/Lib.antt =====
-- Grizol is a Syncthing device that keeps files on remote storage. This library models the parts of it
-- that carry its own logic, and proves what they promise.
--
-- The parts. A peer connects over TLS (src/main.rs). The bytes it sends are cut into messages by the
-- parser (src/core/bep_data_parser.rs) and go to the message processor, whose answers are events; the
-- sending loop of src/main.rs turns events into bytes. The processor asks for the blocks that the
-- device lacks through a queue of requests (src/core/outgoing_requests.rs), which limits how many are
-- under way. Devices are named by ids (src/device_id.rs), which users type with check digits. What is
-- known of files is kept in a database and, by folder and device, in memory (src/core/bep_state.rs,
-- src/core/indices.rs); the blocks are written through src/file_writer.rs, and the file system
-- (src/fuse.rs) shows the files as a tree.
--
-- The files:
--   Prelude    the Boolean tests, signed integers, byte strings, maps, and `Outcome`, what a Rust call
--              ends with: a value, an error, an unwind, or (in the model only) no fuel left
--   Proto      the messages of src/proto/bep.proto
--   Parser     src/core/bep_data_parser.rs: Incoming has `IncomingMessage`, Decode the conversion to
--              `CompleteMessage`, Machine has `BepDataParser`. Each function keeps its name; the three
--              `populate_*` and the rounds of `parse_incoming_data` return the count of processed
--              bytes and the new parser
--   Wire       src/main.rs: `serialize_message`, `serialize_hello`, the sending loop's body
--              (`outgoing_data`), the reading loop (`read_all`); `GrizolEvent` of src/core.rs
--   DeviceId   src/device_id.rs: the texts of device ids
--   Requests   src/core/outgoing_requests.rs: `OutgoingRequests` with `insert` (`insert_request`),
--              `remove`, `remove_old_requests` and `update_pending_requests`
--   Processor  src/core/bep_processor.rs: `diff_indices` with its comparisons, the requests for blocks
--              (and `insert_requests` with the request id of src/core/bep_state.rs), `handle_response` on the
--              queue (Responses), `handle_complete_message` with the other handlers (Handlers), and
--              `store_response_data` with `cp_local_to_remote` of src/storage.rs (Storing)
--   FileWriter src/file_writer.rs: `new` (`new_file_writer`), `write_chunk` and `consolidate` on a
--              map of chunk files, one call at a time; Steps has any number of calls side by side
--   Indices    src/core/indices.rs: `GrizolIndices` with `insert` (`insert_index`), `index` (`index_of`),
--              `insert_file_info` and `remove_file_info`
--   Config     `GrizolConfig` of src/core.rs and its conversion (`from_proto`) from src/proto/config.proto
--   State      src/core/bep_state.rs: Tables has the tables of the migration and the statements on them,
--              the parent the operations that write files, Reads those that read them, Uploads
--              `update_block_storage_state`, Cache the read cache, Cluster the cluster configurations.
--              `insert_file_info` is `insert_file_infos`
--   Fuse       src/fuse.rs: the tree in memory (`GrizolFsMem`) and the loop of
--              `refresh_expired_folders_files` (`refresh`, with `insert_files` for the queue); the callbacks
--              on the tree (Memory), on the lists (Database) and the reads (Read), which Callbacks chooses
--              from; Attributes, and FilePath for `std::path`; Shown has `top_folders_fuse` and
--              `files_fuse` of src/core/bep_state.rs; Rename and RenameDb have `rename_mem` and `rename_db`
--   Connectivity  `verify_client_cert` of src/connectivity.rs, and how connections get the id of their peer
--              in `handle_incoming_data` of src/main.rs, as steps of a listener
--   Storage    src/storage.rs: the writers by file, `store_block_concurrently`, `conclude_block_storage`;
--              Copies has the calls of rclone, Reading `read_cached`
--
-- Conventions. A method that changes `self` takes the state and returns the new one. An `unwrap` or
-- `expect` that fails, a failed `assert!`, a slice out of range and a subtraction below zero on `usize`
-- are `panic`: this is arithmetic with overflow checks, as in a debug build; the release build of
-- ops/Dockerfile wraps around where such a subtraction unwinds here. Bytes are numbers, and the
-- lists of bytes are not restricted to numbers below 256; where a theorem needs a bound, it follows from
-- the lengths. A text is its bytes. The encoders and decoders of prost, LZ4 and base 32 are records of
-- functions that the definitions take as arguments; what a theorem needs of them it says.
--
-- Fuel. `parse_incoming_data` has as many rounds as the buffer has bytes. A round of a valid parser
-- takes a byte at least, so this is enough. The rounds of
-- `luhnify`, `unluhnify` and `chunkify` are counted as in the source. The loop that fills the tree of the
-- file system takes its number of rounds as an argument, since the source's need not end. All other
-- loops go down a list.
--
-- The database. A table is the list of its rows. Foreign keys are enforced, the default of sqlx; a
-- statement that violates a constraint unwinds, by the `expect` on its result, and no other statement
-- fails. A statement without ORDER BY promises no order: where the blocks and the versions of a file are
-- read, the order is an argument, and the theorems that speak of a file in the database list them as they
-- were inserted.
--
-- Not modelled: logging, TLS and sockets, the tasks and channels between the loops, the state of the
-- parser behind an error (its only caller unwraps the result), SHA-256 and the reading of
-- certificates, sqlx with its pools and transactions, `new_file_path` of src/core/bep_state.rs, what
-- the program rclone does, `mount` of src/fuse.rs and the handshake of TLS.
pub mod Prelude
pub mod Proto
pub mod Parser
pub mod Wire
pub mod DeviceId
pub mod Requests
pub mod Processor
pub mod FileWriter
pub mod Indices
pub mod Config
pub mod State
pub mod Fuse
pub mod Connectivity
pub mod Storage
