-- ===== src/Lib.antt =====
-- k-board: the convergent document engine, its ports, its store, the rooms of its server and the
-- boards of its hosts.
--
-- A board is a document: a map of elements, each a map of properties, each a last-writer-wins
-- register under a stamp of a hybrid logical clock. Replicas exchange stamped operations or whole
-- documents, and a snapshot is a document with the highest stamp that went into it. The server
-- keeps one snapshot for each room and absorbs the batches that it accepts into it.
--
-- Clock       crates/kboard-core/src/clock.rs: Hlc, its order, tick and observe.
-- Lww         crates/kboard-core/src/lww.rs: the register, set and merge.
-- Prop        crates/kboard-core/src/prop.rs: keys (Prop.Key) and values (Prop.Value).
-- Element     crates/kboard-core/src/element.rs: the map of registers.
-- Document    crates/kboard-core/src/document.rs: the map of elements within one scope.
-- Op          crates/kboard-core/src/op.rs: operations, apply, apply_all, clear, upsert.
-- Snapshot    crates/kboard-core/src/snapshot.rs: absorb, covers, merge.
-- Frac        crates/kboard-core/src/frac.rs: keys between keys.
-- Ports       crates/kboard-core/src/ports.rs: the ports that are kept in memory.
-- Store       crates/kboard-store/src/lib.rs: the two tables, appending, restoring, truncating, listing.
-- Server      crates/kboard-server/src: the rooms of room.rs (Server.Room), the limits and the token
--             bucket of limits.rs (Server.Limits, Server.Rate), the tokens of auth.rs (Server.Auth),
--             and of main.rs the state behind the lock (Server.State), a frame and a connection
--             (Server.Session, Server.Loop), and the steps of the process (Server.Reach).
-- Board       crates/kboard-ffi/src/board.rs: the board of a host and its history; its commands
--             (Board.Command) and their execution (Board.Exec).
-- Bindings    crates/kboard-ffi/src/lib.rs: the registry of boards and the calls of a host.
-- Common      the standard library as far as the source uses it: Ord, BTreeMap as a list in
--             ascending order of its keys, strings as UTF-8 bytes, floating-point numbers as their
--             IEEE 754 bit patterns, with their arithmetic (Common.Float.Arith).
-- Tests       the theorems at concrete inputs, and runs.
--
-- An operation that changes an object takes it and returns it, with the result beside it: tick g now
-- is the generator afterwards and the stamp. A loop over a list is structural recursion; the loops
-- of the two `merge`s, which are the same code, are Common.Map.Merge.merge_with. Counters keep the
-- width of the source: u32 saturates where the source says so, u64 sums wrap. The loop of Frac.between
-- runs on fuel: one round more than the bounds have bytes, which Frac.Search shows to be enough.
-- A sort is insertion; that it is stable is no more than the standard library promises.
-- The texts of the store's rows are abstract, and serde_json's functions are fields of Store.Json.
--
-- The server is one state behind one lock, so that a frame, a join and a sweep are each one step of
-- it, and a crash is a step to a process with the same store. Instants are nanoseconds, in tokens
-- seconds. Each call of a host is one step of the registry.
--
-- Not modelled: serialisation and its JSON, which is an argument where it matters; display, and the
-- accessors that lend a reference; the broadcast channel, of which the number of receivers is an
-- argument and what is sent is a value; sockets, HTTP routes and the start of the process; the
-- cryptography of tokens, an argument; failures of the database; allocation and the trapping of
-- panics in the bindings.
pub mod Common
pub mod Clock
pub mod Lww
pub mod Prop
pub mod Element
pub mod Document
pub mod Op
pub mod Frac
pub mod Snapshot
pub mod Ports
pub mod Store
pub mod Server
pub mod Board
pub mod Bindings
pub mod Tests
