-- ===== src/Examples.antt =====
-- The theorems on concrete databases: a company "acme" with its roles, deliveries and budgets.
mod Deliveries
mod Agents
mod Authorizations
mod Budgets
mod Journals
mod Requests
mod Routes
mod Polls
mod Policies
mod Messages
mod WakeRules
mod Governed
