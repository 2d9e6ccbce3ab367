-- ===== src/Tests.antt =====
-- Tests on concrete inputs: a cluster of two nodes, the first with the data of a primary, the
-- second with those of a replica.
mod Cluster
mod Recovery
mod Start
mod Backup
mod Daemon
mod Cycle
mod Members
mod Settings
mod Proxy
mod Reconcile
mod Texts
mod Files
mod Init
