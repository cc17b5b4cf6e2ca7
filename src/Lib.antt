-- ===== src/Lib.antt =====
-- The secrets broker and the link opener of forward.
--
-- `secretsd` (crates/secrets) releases secrets to the processes of an agent's session after a human
-- has touched a hardware key. A harness registers a session's token with the process that roots it;
-- a request names a key and a token or a terminal; the broker resolves its scope, answers from a live
-- grant, or queues it for the one worker, which decrypts and installs a grant. AUTHORIZE runs the same
-- ceremony for a capability and answers a receipt, which REDEEM spends. LOCK forgets everything.
--
-- Containment: the ancestry walk of crates/containment/src/lib.rs and pinned.rs.
-- Grants: crates/secrets/src/grants/ (Scope, Table, Registry), with their laws beside them.
-- Requests: crates/secrets/src/requests/: the queue (Queue), its operations as data (Ops), its
--   invariant (Sound, Sweep), what stays ended (Over, Ended, Stale), the limits (Limits), the single
--   decrypt (Flight), and the queue together with its worker (Moves, Decrypts).
-- Hex: crates/hygiene/src/hex.rs and the session token's text. Names: crates/secrets/src/secret.rs
--   and capability.rs.
-- Receipts and CapabilityGrants: crates/secrets/src/receipts.rs and capability_grants.rs.
-- Broker: crates/secrets/src/server.rs and server/. State is the struct behind the lock. Control,
--   Capability, Approval and Worker hold one function for each time that a thread holds the lock:
--   `await_approval` is `begin_approval` and rounds of `poll_approval`, the worker's round is
--   `begin_job`, `decrypt_started` and `finish_job`. System is the step relation of their
--   interleavings, with at most one job of the worker; Epoch and Overtaken follow the epoch along its
--   runs. Dispatch is what a parsed request starts, in its lane (Lanes); Frame how a request is read;
--   Subscribers the hub of server/subscribers.rs, whose steps are LOCKs, publications and attachments.
--   Waits and Approved are about what AUTHORIZE waits for, and Release about what a request is given.
-- Protocol: crates/proto/src/lib.rs and crates/secrets/src/proto/: codes, lifetimes, requests, the
--   response line and the authority events. Reply is the client's side, crates/proto/src/response.rs:
--   a reply from a text, and from a stream of arrivals until a deadline (Reply/Stream).
-- Store: crates/secrets/src/store.rs: the files that back a key, and how a search fails.
-- Config: crates/secrets/src/config.rs: the source roots.
-- Decrypt: crates/secrets/src/decrypt.rs and decrypt/classify.rs: the wait for sops, in rounds that
--   an argument lists, and what its error output means.
-- Opener: crates/forward/src/. Url, Policy and Matches: the allowlist of policy.rs. Peers: config.rs,
--   config/peers.rs and peer.rs. Ports and Bridge: bridge/port_policy.rs, bridge/armed.rs,
--   bridge/limit.rs and localhost.rs. Callback: callback/lease.rs. Browser: browser/grant.rs with
--   grant/lifetime.rs and grant/pipes.rs. Lines: browser/token.rs, bridge/arm_request.rs and request.rs.
-- RateLimit: crates/forward/src/ratelimit.rs.
-- Prelude: bytes, lists, machine integers and time. Examples: the theorems at concrete inputs.
--
-- Text is the list of its bytes. A Duration and an Instant count nanoseconds. The counters of ids,
-- generations and epochs saturate at the largest 64-bit number, as in the code; what needs a fresh
-- id says that ids are left. The ancestry walk takes the 64 hops of the code. The loop that draws a
-- receipt's id has no bound in the code: it takes a number of rounds here.
--
-- Arguments stand for what the program asks of the system and of its libraries: the kernel's answers
-- on processes and paths, the bytes of /dev/urandom, the clock, whether bytes are UTF-8, what
-- directories, files and sockets answer, what a child process is found to do, the URL, address and TOML
-- parsers, and the decimal text of a number. A list of reads, arrivals or rounds is as long as it is
-- given: where the loop has not ended by then, the result is `none`.
-- The broker's handlers take the store's `locate` and `identity` as arguments.
--
-- Not modelled: sockets, threads and relayed traffic, spawning and killing sops, logging, the command
-- lines and the daemon's set-up, which are calls of the system; the message of an error, the text of a
-- reply's fields, and zeroizing. A handler that reads the clock more than once takes one time, except
-- where the first reading decides a lookup.
pub mod Prelude
pub mod ErrCode
pub mod Containment
pub mod Grants
pub mod Requests
pub mod Hex
pub mod Names
pub mod Receipts
pub mod CapabilityGrants
pub mod Broker
pub mod Protocol
pub mod Store
pub mod Config
pub mod Decrypt
pub mod RateLimit
pub mod Opener
pub mod Examples
