-- ===== src/Lib.antt =====
-- A verification library for the distributed key-value program in src/distsys: its causality layer,
-- its CRDTs, their store in memory and on disk, its replication, its membership and routing, the frames
-- on its connections and the guards around its calls.
--
-- How the parts interact. A write takes a fresh dot from the causal clock of its node, and a CRDT
-- records it. A durable node commits the entry and the clock to its file before its memory takes them, and
-- restores both from there when it starts. Replicas exchange whole states and merge them, and version
-- vectors say which events a state knows. What is stored is published to peers through the outbox.
-- Probes and gossip exchange member records, each node merges them into its table, and builds its hash
-- ring again from the table; the ring places the replicas of a key and routes a task. Calls
-- between nodes are framed messages; they go through a breaker, a retry and a deadline, and requests
-- through a rate limiter and an admission controller.
--
-- Which file models which part (paths from src/distsys):
--   Causal.Actor                causal/actor.py, causal/dot.py: CausalActor, Dot
--   Causal.Version              causal/version_vector.py, causal/token.py: VersionVector, CausalToken
--   Causal.Clock                causal/clock.py: CausalClock with its staged blocks
--   Crdt.Semilattice            crdt/base.py: what is asked of `merge`
--   Crdt.GCounter, PnCounter, OrSet, MvRegister
--                               crdt/gcounter.py, pncounter.py, orset.py, mvregister.py
--   Storage.Entry, Storage.Store
--                               storage/models.py, storage/crdt_store.py: StoredCrdtEntry, CrdtStore
--   Persistence.Models, Repository, Durable
--                               persistence/models.py, sqlite_repository.py, durable_store.py, and
--                               the write of crdt_service.py: the file, the memory, the clock
--   Recovery.Restore            recovery/restore.py: RestoreService.restore
--   Replication.Outbox, Digest  replication/outbox.py, replication/digest.py
--   Replication.CausalRepair    replication/causal_repair.py: CausalRepairService.ensure
--   Protocol.Message, Envelope, Framing
--                               protocol/message.py, codec.py, framing.py: messages and frames
--   Cluster.Member, Membership  cluster/member.py, cluster/membership.py: MembershipTable
--   Cluster.Ring                cluster/consistent_hash.py, replication/replica_selector.py
--   Cluster.Router              cluster/cluster_router.py: ClusterRouter.execute
--   Cluster.Service             cluster/service.py, failure_detector.py, gossip.py: the table and the
--                               ring of a node under probes, gossip and control messages
--   Resilience.Breaker          resilience/circuit_breaker.py
--   Resilience.Admission        resilience/backpressure.py
--   Resilience.RateLimiter      resilience/rate_limiter.py
--   Resilience.Retry            resilience/deadline.py, resilience/retry.py
-- Their children hold the proofs, each named for what it shows. Base, Order, Sorted and Counts are
-- the shared ground: results and integers, Python's order on keys, dictionaries and sorted tuples of
-- items, and counts by key. Tests runs the model at concrete inputs.
--
-- How the code is modelled. A function has the name of its method without a leading underscore. A
-- method that raises gives a `Result`, with the class of the exception and not its text. A method that
-- changes its object takes the state and gives the new one; where it holds its lock throughout, or
-- awaits nothing that suspends it, it is one step, and runs are lists of steps. A clock reading is an
-- argument of the step that reads it. The answer of a peer and how an access of the file ends are
-- arguments too, and what other tasks do during a call is a function on the state.
-- Seconds and tokens are exact natural numbers, so float rounding is not modelled; a parameter that
-- the code checks for its sign is an integer there. A `str` is the list of its code points. A dict is
-- the list of its items in the order of their insertion, a frozenset the sorted list of its elements
-- without repetition, since only its membership and its equality are seen. `json`, Protobuf, SHA-256
-- and SQLite are not this program's code: the encodings, the hash and the outcome of a commit are
-- parameters, and a theorem that needs the round trip of an encoding has it as a hypothesis.
--
-- Loops are structural on the lists that the code iterates over; the retry loop counts down the
-- attempts of its policy, which are as many as the `for` loop has. The loop of the frame decoder has
-- one round for each byte of its buffer and one more: a frame takes nine bytes at least.
--
-- Not modelled: logging, metrics and tracing, sockets and TLS, the generated messages and their codecs,
-- the JSON of the file's columns, its migrations and backups, the cancellation of a task while its
-- commit runs in a thread, etcd; anti-entropy and the sending of replication, coordination, and the
-- services that connect the parts.
pub mod Base
pub mod Order
pub mod Sorted
pub mod Counts
pub mod Causal
pub mod Crdt
pub mod Storage
pub mod Replication
pub mod Resilience
pub mod Cluster
pub mod Tests
pub mod Protocol
pub mod Persistence
pub mod Recovery
