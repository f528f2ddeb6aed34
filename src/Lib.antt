-- ===== src/Lib.antt =====
-- The access service: authentication and authorization of an HR platform (NestJS, TypeScript).
--
-- Conventions. An asynchronous method is a function from the state that it shares to what it returns
-- or throws and the state after (Prelude/Exec). Identifiers and tenant codes are only compared, so
-- they are numbers, or texts where a key is made of them; moments are milliseconds. The SQL library
-- is not part of the repository: its tables and transactions are the interfaces of Database, with a
-- table in memory that meets them (Database/InMemory). Its filter by the request's tenant is left out:
-- a table holds the rows that a request may see. The loops of the code run over lists, but for the
-- search for cycles in the permission catalogue and the batches of the reconciliation worker, which
-- are recursions on fuel: as much as there are codes in the graph, and users, which is enough.
--
-- Sync: the synchronization jobs of src/modules/authorization.
--   Job: entities/authorization-sync-job.entity.ts, dto/sync-job-response.dto.ts.
--   Outbox: the sync events of src/modules/security-event/services/outbox-event.service.ts.
--   Store: repositories/authorization-sync-job.repository.ts and the unique index of the migration.
--   Service: services/authorization-sync.service.ts. While enqueueSyncJob waits between its search
--     for a job in flight and its transaction, other processes commit what they will
--     (Platform.others), and again between a failed transaction and the second search
--     (Platform.others_after). The inserts of the job and of its event may fail.
--   Watchdog, Status, Scanner: services/sync-job-watchdog.service.ts,
--     sync-status-projection.service.ts, scheduled-reconciliation-scanner.service.ts. The statements
--     of a sweep of the watchdog do not fail in the model.
--   Lock, Worker: services/distributed-lock.adapter.ts and
--     authorization-reconciliation-worker.service.ts, over an interface to the services that a run
--     calls. The projection version that reconcileGroupPopulation writes at its end is part of the
--     run, and each statement on the tables may fail (Work.fails). Its loop runs on fuel, as much as there are users, which is enough.
--   InFlight, Queueing, Claim, Recovery, Summary, Sweep, Batches, Quiet, Settled, Ended, Cycle: the
--     theorems about these.
--   Tests, WorkerTests: runs on a concrete platform, and an instance of each theorem.
--
-- UserGroups: the domain of src/modules/user-groups. Attributes and operators are texts as in the
-- source; the numbers of JavaScript and the comparisons of the database are parameters.
--   Text: trim and toLowerCase.
--   Rule, Scope: domain/validators, with the reasons that they throw as data.
--   Engine, Query: evaluate and buildMatchingQuery of services/user-group-matching.engine.ts; a
--     condition of the query is data, one constructor for a template of the source.
--   Sql: what such a query selects, over the interface of the database's comparisons.
--   Aggregate: domain/aggregates/user-group.aggregate.ts.
--   Columns, Clauses, Numbering, Matching, Accepted, Roles, Lifecycle: the theorems about these.
--   Tests: runs on natural numbers and a concrete database, and an instance of each theorem.
--
-- Access: what a user may do (src/modules/authorization).
--   Evaluator: services/cumulative-access-evaluator.service.ts.
--   Diff: the maps by key that a synchronization compares.
--   Grants: repositories/user-effective-role.repository.ts, of authorization and of user-groups.
--   Projection: services/effective-role-projection.service.ts and
--     services/user-authorization-cache.service.ts; a call of Redis fails where Redis says so.
--   Reconciler: services/membership-reconciler.service.ts of src/modules/user-groups, for one user.
--   Decision, Inserted, Synchronized, Targets, Outcome, Reconciled: the theorems about these.
--   Tests: runs on tables in memory, and an instance of each theorem.
--
-- Login: src/modules/auth, lockout, mfa and ip-restriction.
--   State: what a login shares, and the platform: the table of users, the check of a hash, random
--     identifiers, the signing of tokens, and in which states a call of Redis fails.
--   Lockout: services/lockout.service.ts of lockout, with its adapter and Lua script.
--   Session, Challenge, Password: services/auth.application.service.ts of auth, and
--     services/mfa_application.service.ts and adapters/redis_mfa_challenge.adapter.ts of mfa.
--   Checks, Opened, Admission, Limits: the theorems about these.
--   Tests: runs on a table in memory, and an instance of each theorem.
--
-- Permissions: the catalogue of permissions (src/modules/permissions).
--   Naming: the form of a code. Loader: loaders/permission-catalog.loader.ts; the parser of YAML and
--     the file system are parameters. Graph: loaders/permission-graph-builder.ts.
--   Validator: services/permission-catalog-validator.service.ts. Catalogue, Dependency:
--     services/permission-catalog.service.ts and permission-dependency.service.ts.
--   Edges, Nodes, Reach, Termination, Cycles, Search, Integrity, Initialized, Closure: the theorems
--     about these. Tests: runs, and an instance of each theorem.
--
-- Outbox: the events of roles and groups, the factories of
-- src/modules/security-event/services/outbox-event.service.ts, and the table's repository. A
-- payload is a list of named values.
--
-- Roles: src/modules/roles.
--   Role: entities, interfaces, templates, requests and errors. Store: the repositories, the unique
--     indexes and services/role-cache.service.ts. RolePlatform.others is what other processes commit
--     before a transaction takes its lock. The column `version` is written by the service alone.
--   Service, Changes: services/role.application.service.ts. Response: what the controller answers.
--   Bootstrap: services/bootstrap-authorization.service.ts of src/modules/authorization.
--   Steps, Created, Blocked, Kept, KeptSteps, Protected, Inviolable, Renewed, Permitted, Commands: the
--     theorems.
--   Tests: runs on tables in memory, and an instance of each theorem.
--
-- Reset: the reset of a password by code (src/modules/password).
--   Service: services/password.service.ts and its Redis adapter.
--   SingleUse: the theorems. Tests: runs, and an instance of each theorem.
--
-- Not modelled: the services of user groups around the aggregate (transactions and events like those
-- of Roles), invitations, provisioning, sessions after a login, single sign-on, impact analysis and
-- the enrolment of factors, whose state the modelled parts do not read; the reconciliation of a whole
-- group, which repeats that of one user; controllers, modules, metrics and migrations, which are
-- declarations for the framework. Log lines are left out, and so is the expiry of keys in Redis.
pub mod Prelude
pub mod Database
pub mod Sync
pub mod UserGroups
pub mod Access
pub mod Login
pub mod Reset
pub mod Permissions
pub mod Outbox
pub mod Roles
