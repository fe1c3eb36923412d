-- ===== src/Lib.antt =====
-- A verification library for nine parts of the quantum database (qndb/): the query language and its
-- executor, the pool of connections, the transactions of the query interface, the consensus protocol
-- of the cluster, its replicated values, the resources of the job scheduler, caches, access rights, and
-- the audit log.
--
-- Queries (qndb/interface/query and qndb/interface/query_executor.py)
-- The text of a condition becomes tokens and a tree. A statement runs on tables in memory: SELECT builds
-- a tree of operators and pulls rows from it, the others change a table.
--   Query/Token.antt, Lexer.antt   tokenizer.py: WhereTokenizer
--   Query/Where.antt               where_parser.py: WhereParser
--   Query/Params.antt              parser.py: _substitute_params, and the comments that are stripped
--   Query/Texts.antt, Rows.antt    query_executor.py: values, _coerce and _evaluate_condition
--   Query/Plan.antt                query_executor.py: open and next of the operators
--   Query/Plan/Tables.antt         sorting and joins, which gather rows first
--   Query/Plan/Groups.antt         AggregateOperator on gathered rows
--   Query/Plan/Algebra.antt        what a plan means, as operations on whole lists
--   Query/Statements.antt          query_executor.py: QueryExecutor
-- Texts are of ASCII. Floats are a parameter: what str makes of a numeral with a dot, in the tokenizer,
-- and their comparisons and arithmetic, in the executor. The tokenizer has one unit of fuel for each character and one more, and takes a
-- character a round; the parser has 4 for each token and 4 more, since each token is passed by at most
-- four levels of the grammar. The loops that pull rows have one more unit than the rows that can come,
-- which are counted from the tables. Rows are values: that results share the dictionaries of a table is
-- not modelled, nor is what an exception leaves of a database.
--
-- Pool (qndb/interface/connection_pool.py)
-- A connection caches prepared statements; the pool hands connections to clients and takes them back.
--   Pool/Wire.antt                 encode_message and decode_header
--   Pool/Prepared.antt             PreparedStatementCache
--   Pool/Connections.antt          DatabaseConnection without execution, and ConnectionPool
-- A connection is an object in a store, since clients and the pool share it. Every operation of the pool
-- holds the lock, so it is one step, and the clock is an argument.
--
-- Transactions (qndb/interface/transactions)
-- The transaction manager keeps a table of transactions, a write-ahead log and a store of versioned
-- rows. A client begins a transaction, adds operations to it under locks, sets savepoints, and commits
-- it or rolls it back; a commit writes its operations as new versions and log records.
--   Transactions/Transaction.antt  transaction.py and enums.py: one transaction, savepoints, conflicts
--   Transactions/Wal.antt          wal.py: append, replay, truncate
--   Transactions/Mvcc.antt         mvcc.py: write, delete, read_snapshot, gc
--   Transactions/Locking.antt      manager.py: _can_acquire_lock and _would_cause_deadlock
--   Transactions/Manager.antt      manager.py: the methods of TransactionManager
-- The manager's methods hold one mutex, so each is a function on the manager's state. acquire_lock
-- gives the mutex up while it sleeps: it is a list of rounds, each with a reading of the clock and what
-- the other threads do meanwhile. The identifier that uuid4 gives is an argument, and so is the clock's
-- reading, one for each call. A row is a dictionary of texts. The log's file is a list of records; how
-- a record becomes a line of JSON is not modelled. The depth-first search of _would_cause_deadlock runs
-- on fuel, one unit for each active transaction and one more: it enters a transaction only once.
--
-- Consensus (qndb/distributed/consensus.py)
-- A node of the Raft cluster keeps a role, a term and vote that are stored with the replicated log, and
-- how far entries are committed and applied. Messages and the clock drive it.
--   Distributed/Log.antt           LogEntry and PersistentLog
--   Distributed/Raft.antt          the node's state, the messages, elections and changes of role
--   Distributed/Handlers.antt      the handlers of messages, proposals, commitment, snapshots
--   Distributed/Node.antt          process_message, send_heartbeats, tick, start and stop
--   Distributed/Pbft.antt          QuantumPBFT, a second protocol: requests, votes, views, checkpoints
-- The node manager is the list of node identifiers and the number of active nodes, the messages of a
-- tick are an argument, and what a node sends or applies is a list of effects. SHA-256 is a
-- parameter of the second protocol, and its nodes come in the order of their identifiers. Loops are
-- structural on entries, nodes or positions. The file that mirrors the log, quantum_engine, which the
-- protocol never calls, and the transport (node_manager.py, networking.py) are not modelled.
--
-- Replication (qndb/distributed/synchronization.py)
-- Replicas compare versions by vector clocks or times, and send what is written to their peers.
--   Distributed/Clock.antt         VectorClock and GCounter
--   Distributed/Replicas.antt      LWWRegister, ConflictResolver, put, apply_remote and _replicate
--   Distributed/Regions.antt       GeoRouter: the regions of nodes
-- Which peers acknowledge a message and the checksum of a value are parameters. Ranking by latency, the
-- full synchronization and the statistics are not modelled.
--
-- Scheduling (qndb/middleware/scheduling)
-- Jobs ask for qubits; a manager gives each a block of neighbouring ones, within quotas for tenants, and
-- a monitor refuses jobs when the queue is long.
--   Scheduling/Job.antt            job.py and enums.py: the life of a job
--   Scheduling/Quota.antt          quota.py and monitor.py
--   Scheduling/Resources.antt      resources.py: allocation, release, the search for a free block
-- The scheduler that calls them (job_scheduler.py) is not modelled, nor is the score of a job.
--
-- Caching (qndb/middleware/cache.py)
-- Results are kept for a time and up to a number; the query cache finds them by plan; a ring of hashes
-- spreads keys over nodes. Hashes are parameters.
--   Caching/Results.antt           QuantumResultCache and QueryCache, without their statistics
--   Caching/Ring.antt              ConsistentHashRing
--
-- Access (qndb/security/authorization)
-- Users and roles hold permissions on resources; a list says who may do what. Users log in, accounts
-- are locked after wrong passwords, and policies on rows and on attributes decide what is seen.
--   Access/Models.antt             models.py: User, Role, Resource, AccessControlList
--   Access/Login.antt              rbac.py: authenticate and the lockout of accounts
--   Access/RowSecurity.antt        rls.py: RLSPolicy, ColumnMask, filter_rows, apply_column_masks
--   Access/Attributes.antt         abac.py: conditions, policies and the engine
--   Access/Manager.antt            rbac.py: users, roles, resources, grants and revocations
--   Access/Hierarchy.antt          rbac.py: _check_role_hierarchy_permission
--   Access/Checks.antt             rbac.py: check_permission, and the rows and columns of a resource
--   Access/Queries.antt            rbac.py: authorize_query, and what it reads of a parsed query
-- The check of a password against its hash, the predicates of row policies, masking functions and the
-- operators on attributes are parameters, and so is re.match of the patterns of wildcard grants, which
-- are taken to be valid. A call that raises ValueError is refused, with the state that it leaves. The
-- search through roles has one unit of fuel for each role of the manager and one more, since it enters a
-- role once; check_permission has one for each resource above the one asked for and one more, and runs
-- out where these go in a circle, which the source answers with RecursionError.
--
-- Audit (qndb/security/audit)
-- Events are kept in a chain of hashes, written to files and streams, and removed by age; data subjects
-- ask for their data or its erasure.
--   Audit/Event.antt               events.py: AuditEventType and AuditEvent
--   Audit/Json.antt                hash_chain.py: what json.dumps writes of an event
--   Audit/Chain.antt               hash_chain.py: HashChainAuditLog
--   Audit/Sinks.antt               sinks.py: the rotating file and the stream
--   Audit/Retention.antt           retention.py: tiers of age and what happens to old files
--   Audit/Requests.antt            compliance.py: GDPRManager
-- The hash of a text is a parameter, and so are the JSON text of a value of the details, which is one
-- that json.dumps takes, and the length of an event's line in a file. The hash is that of the fields and
-- of the details in the order of their keys, as the text has them. The lock of the chain is part of its state, so that a call that takes it twice is seen to wait for ever. The central
-- logger (logger.py) and the mapping of events to controls are not modelled.
--
-- Proofs stand in child modules named for what they prove, and runs on small inputs in
-- the module Tests of each part. Prelude.antt has the Boolean tests, equality as
-- an interface, lists measured by the native numbers, and dictionaries.
--
-- Not modelled: the rest of qndb/distributed, the simulation of circuits in
-- floating point (qndb/core), which third-party packages do, cryptography and the rest of qndb/security
-- (the earlier access_control.py among it), the
-- parser of whole statements, which sets literals aside, normalizes white space and keywords and splits
-- texts by regular expressions, the client, and the rest of
-- the middleware (other caches, optimizer).
mod Prelude
pub mod Transactions
pub mod Distributed
pub mod Scheduling
pub mod Caching
pub mod Access
pub mod Audit
pub mod Pool
pub mod Query
