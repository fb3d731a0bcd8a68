-- ===== src/Lib.antt =====
-- The control plane of an organization of software agents (control/sjg_control): a host process that
-- wakes one agent for each role, gives it work, bounds what it may spend and brokers what it may
-- write. Its durable state is one SQLite database, `Store` of control/sjg_control/store.py; every
-- other part of the program acts by calls on it, so the properties of the state are properties of
-- those calls, in any order.
--
-- Parts, and the files that model them (paths of the program are from the repository's root):
--   Store/Schema         the tables of SCHEMA in store.py, a record for each row type and a data type
--                        for each CHECK on a state; `Store` is the database
--   Store/Action         `immediate`, BEGIN IMMEDIATE with rollback on an exception, and StateError:
--                        a method is a function from a database to a result and a database
--   Store/Sessions       create_session, session, revoke_session, finish_session,
--                        force_terminate_session, reap_expired_session
--   Store/Workers        reserve_worker, and the UPDATEs that control/sjg_control/workers.py makes
--   Store/Budget         reserve_budget, settle_budget, mark_budget_uncertain, release_budget
--   Store/Delivery       add_route, enqueue_delivery
--   Store/Lease          lease_delivery, start_delivery
--   Store/Outcome        finish_delivery, release_budget_hold, force_delivery_uncertain
--   Store/Requests       reserve_request, prior_request, mark_request_applying,
--                        abandon_read_request, finish_request, audit
--   Store/Snapshots      checkpoint, begin_snapshot, stage_observation, finish_snapshot
--   Store/Reconcile      reserve_reconcile, mark_reconcile_applying, finish_reconcile
--   Store/Runtime        supervisor values, routing of events, wakes
--   Store/Processes      processes, and the queries of what is left open
--   Store/Recovery       recover_orphan_session, recover_prepared_wake and their two helpers
--   Json                 the values of JSON and YAML that the checks read
--   Session, Authz       control/sjg_control/authz.py: Session, the matrix of roles and operations and
--                        validate_request; Authz/Texts has _safe_topic and _safe_worker_paths,
--                        Authz/Changes _safe_paths, Authz/Patterns the regular expressions, Authz/Facts
--                        the facts, Authz/Rules and Authz/Authorize the rules of `authorize`
--   Policy               control/sjg_control/policy.py: the compiled policy, and in Policy/Checked,
--                        Policy/Roles and Policy/Compile the steps of compile_policy
--   Protocol             control/sjg_control/protocol.py: messages behind their length; `_read_exact`
--                        runs on fuel, as many turns as it reads bytes, which is enough
--   Broker               Broker.handle of control/sjg_control/broker.py over validate_request,
--                        authorize and the request journal; the backend is its parameter
--   Routing              route_event, in Routing/Normal normalize_event, and in Routing/Rules
--                        load_wake_rules, of control/sjg_control/routing.py
--   Polling              event_identity and poll_source of control/sjg_control/delivery.py: the source
--                        is the sequence of its answers
--   Governance           plan of control/sjg_control/reconcile.py
--   Monitor              control/sjg_control/governance.py: `_apply` and `sync`, whose calls of the
--                        backend are a parameter, as are a write's key and precondition text;
--                        Monitor/Snapshot has `_managed` and the actions of `snapshot`,
--                        Monitor/Blockers `_blockers`, and Monitor/Marker `source_marker` of
--                        control/sjg_control/reconcile.py
--   Base                 tables as lists of rows with SELECT, UPDATE, DELETE and count; texts and their
--                        order; the shared lemmas; in Base/Regex regular expressions and what they take
--
-- Proofs: Store/Agents runs the calls that open and close agents under one cap; Store/Budget/*
-- follows reservations through the buckets, and Store/Budget/Booked says what each leaves in them;
-- Store/Dispatch runs the calls on deliveries, and Dispatch/Machine is the abstract machine of one
-- delivery that they refine; Store/Snapshots/Publication, Store/Requests/Replay and
-- Store/Reconcile/Journal treat the journals; Broker/*, Authz/*, Policy/*, Protocol/*,
-- Routing/Choice, Routing/Rules/Targets, Routing/Normal/Shape, Polling/Withheld, Monitor/* and
-- Governance/Convergence treat the parts around the store. Examples/* apply the theorems to concrete
-- databases.
--
-- Conventions. A table is the list of its rows, newest first; no query depends on that order. A
-- primary key or UNIQUE constraint is a test before the INSERT that raises IntegrityError; a theorem
-- that needs a key to be unique has it as a hypothesis. Fresh UUIDs, the clock's texts and the texts
-- of `json.dumps` are arguments. Python's Unicode tables beyond ASCII, base64 and SHA-256 are the
-- fields of `Platform`. Texts are sequences of characters, so they hold no lone surrogates. Integers
-- of the program that may be negative are ℤ, counts are ℕ; only `_read_exact` runs on fuel. A YAML
-- number that is a text has fewer digits than Python's limit. Timestamps are compared as the texts
-- that SQLite compares.
--
-- Not modelled: the connection and the files of the database, and the parts that mostly do I/O
-- (providers, sockets, processes, GitHub) or build the installation (bin, runtime). A concurrent
-- writer is a call between two calls: BEGIN IMMEDIATE admits one writer at a time.
pub mod Base
pub mod Json
pub mod Session
pub mod Store
pub mod Examples
pub mod Governance
pub mod Routing
pub mod Authz
pub mod Broker
pub mod Polling
pub mod Policy
pub mod Protocol
pub mod Monitor
