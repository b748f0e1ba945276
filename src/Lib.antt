-- ===== src/Lib.antt =====
-- PicoDome runs untrusted commands in a sandbox (L3), compares what they did with what is expected of
-- them (L4), and offers this as a service: a daemon that knows its callers by bearer tokens, limits
-- their rates, queues their jobs by priority, and can be one node of a cluster that shares out scans.
-- This library models the logic of these parts from their Python sources, in src/picodome.
--
-- How the parts meet: a request's token is checked by `TokenAuth` and its role by `RBAC`, the caller is
-- rate limited by `TokenBucketLimiter`, the job waits in `JobQueue`, runs under a `Policy`, whose hash
-- goes into the evidence, and its profile is compared with the baselines. In a cluster the
-- `ClusterManager` of each node works on one `ClusterState` over a `StateBackend`.
--
-- - Base: what the others share: Boolean tests and lists over the native numbers (Tests, Lists), texts
--   and Python's order of them (Text), dictionaries in insertion order (Dict), `sorted` (Sort),
--   exceptions as values (Result), integers (Int), permutations (Perms).
-- - Cluster: cluster/manager.py. Node has the records and their dictionaries, Backend the interface
--   `StateBackend` with its laws, Memory, Table and Sqlite the two implementations, Agree their
--   comparison, State and its children `ClusterState` (`assign_scan`, `complete_scan`, `fail_scan`,
--   `elect_leader`, `merge_state` and its parts), Manager and its children `ClusterManager` (`start`,
--   `stop`, `assign_scan` as `submit_scan`, `handle_heartbeat`, `handle_node_failure`,
--   `_check_node_health`).
-- - Ratelimit: ratelimit/limiter.py. Bucket has `_TokenBucket`, Limiter and its children
--   `TokenBucketLimiter` (Refill: who is admitted after waiting).
-- - Jobs: ratelimit/queue.py. Heap has the jobs, their order and the interface `Heapq`, Queue the
--   operations of `JobQueue`, and its children what they do (Evict, Order, Pending, Purge), what they
--   keep (Invariant) and the step relation of all calls (Steps), and Drain a
--   worker that takes all jobs.
-- - Auth: auth.py. Rbac has `RBAC`, Tokens the parts of `TokenAuth`, Backoff the brute-force back-off
--   over series of attempts, Validate what `validate` answers and counts.
-- - L3: l3/models.py, l3/policy.py and l3/policy_hash.py. Models has policies and their dictionaries,
--   Rules the built-in rules, Policy loading and validating, Load and Validate what these give, Hash
--   and its children the canonical form and the hash. Run has the results of l3/models.py and what a backend is,
--   Engine l3/engine.py with the choice of a backend (Choice), the result of a
--   run (Results) and the runs of a process (Runs), Patterns and Subprocess
--   l3/backends/subprocess_backend.py with what its verdict says of the events (Verdicts) and the output (Quiet).
-- - Audit: audit/logger.py. Event has the events and their dictionaries, Logger `AuditLogger` with its chain of
--   hashes and its rotation, Chain what its operations keep, Tamper what `verify_chain` finds, Query `query`.
-- - Daemon: daemon/store.py and daemon/server.py. Job has the scan jobs, Memory `ScanJobStore`, Persistent
--   `PersistentScanJobStore`, View, Restart and Calls what its file holds after any calls, Access
--   `_require_auth` and `_require_permission`, Grants when they let a request pass, Route and Authorized the
--   branches of `_handle_get` and `_handle_post`, Submit and Submitted `_handle_submit_scan`.
-- - Tenant: tenant/. Registry has `TenantRegistry`, Store `TenantAwareScanJobStore`, Isolation what keeps
--   tenants apart.
-- - Policies: policy_versioned/store.py. Version has the versions and their files, Store `VersionedPolicyStore`,
--   Saved what saving and rolling back leave.
-- - Retention: retention/manager.py. Manager has the configuration and the cleanup, Cleanup what it keeps.
-- - Admission: admission/. Validator has `PodSecurityValidator`, Conform which pods it allows, Webhook the answer
--   of the handler.
-- - L4: l4/models.py, l4/differ.py, l4/baseline.py, l4/engine.py, l4/profiler.py and guards.py. Models has profiles and
--   baselines, Differ the comparison, Drift what its flags and score say, Best the search for a baseline, Baselines the shipped and the
--   loaded ones, Engine `L4Engine` with any rules, Verdict and Counts what an analysis says of their findings,
--   Guard what `DeterministicGuard` finds in it. Profiler makes the profile of a run: Fresh says what it holds of the
--   output, Profiler/Timing what becomes of the time of a deterministic run. Timing is l4/rules/timing.py, and what
--   the engine makes of such a run by it.
--
-- Names are those of the source, without leading underscores; a method is a function that takes the
-- object last and returns its new state. `package` is `package_name`.
--
-- Units and bounds. Times are milliseconds and tokens thousandths, as natural numbers, so that the
-- floats of the source are exact here; rates are whole numbers per second. A drift score is counted in
-- fifths. Where the source reads the clock several times in one call, the readings are one argument.
-- Where an exception leaves a method that the daemon calls, the model says so: the wait of a token after its
-- 1029th failure, a line of the job file or a request's body that is JSON and no object, a row that cannot be
-- decoded.
-- A method under a lock is one step. No function of the model runs on fuel: all loops are over lists.
--
-- Arguments of the model, which stand for code outside the repository or for devices: SHA-256, the
-- bytes that `json.dumps` gives, the parser of timestamps, reading a file, `fnmatch`, the table of
-- digits, the clock, new ids, what a line of a log or of a job file is and how JSON makes it, gzip, what
-- the deletion of a file leaves of it, the run of the sandbox for a submitted scan and whether its result can
-- be sent, `strip` and lower case, the matches of regular expressions, what a process comes to, the checks of
-- a host, and `heapq`, of which the interface says what its documentation does.
-- Each interface is filled by a concrete implementation.
--
-- Not modelled: input and output, threads and their waiting, log lines and metrics, the SQL text, what
-- the daemon's handlers other than the submission of a scan write, starting and stopping the daemon, the built-in
-- detectors of L4 but that of timing anomalies, for which any rules stand, and
-- the parts of the system that are mostly calls of services or of the kernel: gRPC, the kernel's sandbox backends,
-- Redis, sinks, notary, webhooks, mTLS, formatters and the command line.
pub mod Base
pub mod Cluster
pub mod Ratelimit
pub mod Auth
pub mod L3
pub mod L4
pub mod Jobs
pub mod Audit
pub mod Daemon
pub mod Tenant
pub mod Policies
pub mod Retention
pub mod Admission
