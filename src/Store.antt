-- ===== src/Store.antt =====
-- control/sjg_control/store.py: the durable state of the control plane. `Schema` has the tables,
-- `Action` the transactions; each other child is one part of the methods of `Store`.
pub mod Schema
pub mod Action
pub mod Sessions
pub mod Workers
pub mod Budget
pub mod Delivery
pub mod Lease
pub mod Outcome
pub mod Requests
pub mod Snapshots
pub mod Reconcile
pub mod Runtime
pub mod Processes
pub mod Recovery
pub mod Agents
pub mod Dispatch
