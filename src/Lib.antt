-- ===== src/Lib.antt =====
-- The coordinator's decision logic of CosaCI.
--
-- The program runs a job on a committee of runners, counts their stake-weighted votes, and
-- anchors the agreed artifact in an append-only log. The parts modelled here and how they meet:
--
-- - Quorum: crates/cosaci-core/src/quorum.rs. `aggregate` keeps the last vote of each runner,
--   adds the stake of either side and compares it with a threshold. Quorum/Weights reads the
--   weights as exact sums, Quorum/Threshold gives the specification, Quorum/Finality,
--   Quorum/Retry and Quorum/Order say what later votes can change.
-- - Aggregator: crates/cosaci-state/src/aggregator.rs. The state around `aggregate`:
--   `receive_vote`, `trigger_aggregation`, `timeout`, and the retry budget.
-- - PartialQuorum: crates/cosaci-state/src/partial_quorum.rs. `aggregate` on the responses of a
--   part of the committee.
-- - StakeLedger: crates/cosaci-state/src/stake_ledger.rs. Stakes, and what slashing takes.
-- - Lease: crates/cosaci-state/src/lease.rs. `LeaseManager` leases a job to a runner for a time;
--   Lease/Invariant relates its two maps, Lease/Expiry is `tick`, Lease/Exclusion and
--   Lease/Granting are `acquire` and `complete`, Lease/History runs sequences of calls.
-- - Partition: crates/cosaci-state/src/partition.rs. `Cluster` lets only the majority side of a
--   partition write to its lease manager; Partition/Authority says what that leaves of the
--   writes.
-- - Replicated: crates/cosaci-state/src/replicated_cluster.rs. A lease manager on either side.
-- - Status: crates/cosaci-core/src/status.rs, the lifecycle of a job, and Status/Checks, its
--   image as a check run in crates/cosaci-state/src/github_checks.rs.
-- - Replay: crates/cosaci-state/src/replay.rs. `ReplayGuard` remembers accepted nonces for a
--   time.
-- - RateLimit: crates/cosaci-state/src/rate_limit.rs. Token buckets, one for each tenant.
-- - Tenant and Submission: crates/cosaci-state/src/tenant.rs and submission_auth.rs. The gate of
--   a job: the tenant, its signature, the replay guard, and the tenant's bucket, in that order.
--   Tenant/Fingerprints is the text of a fingerprint, Submission/Verdict says what is admitted,
--   Submission/Histories runs sequences, Submission/Once what a nonce is good for.
-- - Gossip: crates/cosaci-core/src/gossip.rs. Last-writer-wins registers; Gossip/Lattice is the
--   merge, Gossip/Convergence the effect of any gossip.
-- - Sharding and Handoff: crates/cosaci-state/src/sharding.rs and sharding_handoff.rs. A store
--   over shards that is rebalanced at once, or key by key. Both are compared with a plain map.
-- - Journal: crates/cosaci-state/src/journal.rs. What a crashed coordinator takes up again.
-- - MerkleLog and Retrieval: crates/cosaci-core/src/merkle_log.rs and retrieval.rs. The log of
--   the agreed artifacts: MerkleLog/Prefixes is its append-only promise, MerkleLog/Peaks the
--   decomposition of a length, MerkleLog/Files the file behind it, Retrieval/Bundles what an
--   auditor gets. MerkleLog/Leaves is a tree that the witnesses use.
-- - Capabilities: crates/cosaci-core/src/capabilities.rs. Capabilities/Sorting is the ranking by
--   VRF output, Capabilities/Committee the selection.
-- - AdminAuth: crates/cosaci-state/src/admin_auth.rs. Who may administer the coordinator;
--   AdminAuth/Keys is the file of their keys, AdminAuth/Loaded what holds of it.
-- - NetworkPolicy: crates/cosaci-jobs/src/network.rs. Which connections a job may open; the
--   standard library's reading of an address is an argument.
-- - Enrollment and RecordFile: crates/cosaci-state/src/enrollment.rs, and what the readers and
--   the rewriters of the files of records share. Tenant/Files says which lines are tenants.
-- - Text: the functions on strings and numbers of the standard library that these use.
-- - Attestations and Verifier: crates/cosaci-core/src/attestation.rs, signing.rs and verifier.rs.
--   What a runner signs, and roots over a set of hashes.
-- - Wasm: crates/cosaci-wasm/src/wasm_runtime.rs. A run under limits; wasmtime is an argument.
-- - Jobs: crates/cosaci-jobs/src/lib.rs and source_fetch.rs. Jobs/Running is the executor of a
--   pipeline, Jobs/Native its child processes, Jobs/Cgroup their control group, Jobs/SourceFetch
--   the hash of a checkout. What the operating system does is an argument.
-- - Protocol: crates/cosaci-protocol/src/proto.rs. The messages, and Protocol/Frames the frames.
-- - AdminApi: the admin sessions in bins/cosaci-coordinator/src/main.rs. AdminApi/Sessions says
--   who is answered, AdminApi/Tenants and AdminApi/Revoking what happens to the file of tenants,
--   AdminApi/Rows that a tenant's line is read back.
-- - Intake: the reader of submissions in the same file, from a line of standard input through the
--   gate to the queue. Intake/Gated is one line, Intake/Queue any run of reader and receiver.
-- - Rounds: a job in the same file, from the VRF claims to the anchor, over Capabilities, Quorum,
--   StakeLedger, MerkleLog and Journal. Rounds/Fleet is the acceptance of the runners, Rounds/Steps
--   `run_one_job`, Rounds/Collected and Rounds/Signed what it keeps and what it anchors,
--   Rounds/Counting which artifact that is.
-- - ReadApi: the answers to read clients in the same file. ReadApi/Stored is what they get of what
--   a job has kept.
-- - Map, Sorting and Prelude: `HashMap` as an association list with its laws, sorting, and the
--   shared helpers.
--
-- How the source is read. `u64` and the other machine integers are ℕ; where the source wraps or
-- saturates the definition does (`% 2 ^ 64`, `min`), and a build without overflow checks is
-- meant. A panic (a failed assertion, an index out of range) is the result `none`. SHA-256, the
-- CBOR encoder and ed25519 are fields of a record that the definitions take, as are the trees of
-- `rs_merkle`. A method that changes its object returns the new object. The `Clock` is the
-- caller's: each reading of `now_ns()` is an argument, one for each call in the source, so that
-- two readings in one method are two arguments. A `HashMap` is the list of its entries, and a
-- loop over it takes them in the order of the list, one of those that std may take. Where the
-- source chooses an entry by that order (the artifact of a job, of several named equally often),
-- the order is an argument, and the theorem holds for every one. What blocks and may never return
-- (a wait for a child, a read of its pipes) is `none` while it does. No definition takes fuel: every
-- loop is a recursion on a list, or on a count that the source gives (the bits of a word, a file's
-- chunks), and a polling loop on the turns that are observed.
--
-- Not modelled: the I/O around these parts (TLS, sockets, the async server and the set-up of
-- bins/cosaci-coordinator, the agent), cryptography (SHA-256, ed25519, schnorrkel, ChaCha20), the
-- CBOR encoder, floats (reputation, flake confidence), and the inside of wasmtime and git.
pub mod Prelude
pub mod Map
pub mod Quorum
pub mod PartialQuorum
pub mod Aggregator
pub mod StakeLedger
pub mod Lease
pub mod Partition
pub mod Replicated
pub mod Status
pub mod Replay
pub mod RateLimit
pub mod Tenant
pub mod Submission
pub mod Gossip
pub mod Sharding
pub mod Handoff
pub mod Journal
pub mod MerkleLog
pub mod Retrieval
pub mod Capabilities
pub mod AdminAuth
pub mod NetworkPolicy
pub mod Text
pub mod RecordFile
pub mod Enrollment
pub mod Sorting
pub mod Attestations
pub mod Verifier
pub mod Wasm
pub mod Jobs
pub mod Protocol
pub mod AdminApi
pub mod Intake
pub mod Rounds
pub mod ReadApi
