-- ===== src/Lib.antt =====
-- flux-pg-cluster: the agent that keeps a PostgreSQL cluster (Patroni over etcd) alive on nodes
-- that Flux places and moves. The development models the Go code of the agent, cmd/flux-agent and
-- internal/, and states what keeps the cluster from splitting in two.
--
-- The parts and how they interact
--   The settings come from the environment and from /etc/cluster_env (Config.antt, with
--   Config/Env and Config/File: FromEnv, LoadClusterEnv, WriteClusterEnv of
--   internal/config/config.go). The membership is a text, `name=URL,name=URL`, that init builds
--   from the addresses of the Flux API and every other part takes apart (Topology.antt:
--   buildEtcdTopology of cmd/flux-agent/init.go, otherIPsFromInitialCluster and
--   bootstrapCandidate of cmd/flux-agent/etcd_start.go, membershipNames of
--   cmd/flux-agent/bootstrap_identity.go, candidateIPs of cmd/flux-agent/proxy.go, ListIPs of
--   internal/fluxapi/client.go). Each node describes its disk to its peers (Identity.antt;
--   Postgres.antt reads pg_controldata, from cmd/flux-agent/daemon.go). A node that starts etcd
--   (Start.antt, Start/Join, Start/Run: cmd/flux-agent/etcd_start.go) first looks at its local
--   data, then tries to join through a peer, whose members it reads as in Etcd.antt
--   (internal/etcdmgr/etcdmgr.go), and founds a cluster only on repeated evidence of all peers
--   (Identity/Fresh, Identity/Recovery, Identity/Confirm: evaluateFreshPeerEvidence,
--   evaluateRecoveryAuthority, selectMostAdvancedReplica, confirmRecoveryAuthorityWithPeers,
--   confirmFreshClusterWithPeers). Each node serves its identity over HTTP on the proxy's port
--   (Identity/Endpoint: writeIdentityResponse).
--
--   init itself (cmd/flux-agent/init.go) is Init.antt, with the waiting for answers in
--   Init/Retries, the versions of PostgreSQL in Init/Version and patroni.yml in Init/Render.
--
--   The daemon (cmd/flux-agent/daemon.go) runs one cycle after another. Daemon/Reconcile composes
--   a cycle as runReconcile does, of Daemon/Tracker (updateStateTracker), Daemon/ClusterEnv
--   (updateClusterEnv, updatePatroniYAMLHosts), Daemon/Endpoint (pickHealthyEtcdEndpoint),
--   Daemon/Unreachable (handleEtcdUnreachable, triggerForceNewCluster), Daemon/PatroniConfig
--   (mergePatroniRecoveryConfig), Daemon/Credentials (reconcilePostgresCredentials),
--   Daemon/Members (ghosts, departed members, learners), Daemon/Leader (checkStalePatroniLeader)
--   and Daemon/SystemId (checkPatroniSystemID). It may delete data of another epoch, and hints at
--   a recovery by a flag file that etcd-start consumes. Etcd/Commands has the calls of etcdctl,
--   and Patroni.antt the client of internal/patroni/client.go.
--
--   The proxy (Proxy.antt, Proxy/Probe, Proxy/Writer: cmd/flux-agent/proxy.go) asks every
--   candidate for its role and sends the clients of PostgreSQL to the primary. The primary makes
--   dumps and prunes them (Backup.antt, Backup/Dump, Backup/Cycle: cmd/flux-agent/backup.go).
--
-- Files
--   Base.antt passes on library names and has lists, Boolean tests and signed integers; Text.antt
--   and Number.antt model what the code uses of Go's strings, sort and strconv. Under a
--   component, the children named for what they prove (Config/RoundTrip, Topology/RoundTrip,
--   Init/Agreement, Init/Retries/Ended and Found, Postgres/Laws, Etcd/Lines,
--   Identity/Recovery/Sound and Agreement, Identity/Endpoint/Served, Start/Bootstrap,
--   Start/Join/Reach, Start/Run/Safety, Forgotten and Wipe, Daemon/Tracker/Stable,
--   Daemon/Members/Departed, Daemon/ClusterEnv/Synced, Daemon/PatroniConfig/Rules, Repaired and
--   Settled, Daemon/Credentials/Literal and Primary, Daemon/Leader/Stale, Daemon/SystemId/Wipe,
--   Daemon/Unreachable/Authority, Daemon/Reconcile/Justified, Proxy/Latest and Target,
--   Backup/Prune with its children, Backup/Dump/Chunks, Backup/Cycle/Gated) hold the theorems.
--   Tests.antt has witnesses and tests on a cluster of two nodes.
--
-- How the code is modelled
--   A Go string is a list of bytes; strings.TrimSpace, ToLower and EqualFold are modelled on
--   ASCII text, and the separators of Split and Cut in use are single bytes. An `int` is a signed
--   integer, with the limits of 64 bits where the code parses one; a uint64 is a natural number
--   with its bound written out. sort.Strings is an insertion sort. A pair of a value and an
--   error, or of a value, a Boolean and a reason, is a sum with one constructor for each reason.
--   What the program asks of its surroundings (the disk, the peers' HTTP answers, etcdctl) is a
--   function, numbered by the cycle or the attempt that asks. Calls that change the cluster or
--   the disk are recorded in a trace. Goroutines that end in any order are a step relation
--   (Proxy/Probe). A JSON object is the list of its entries; the codecs of JSON, HMAC, gzip and
--   the network are parameters. Every loop is a structural recursion, over the list that it
--   ranges over or over the number of cycles or attempts that are left. Only the two loops of
--   init that wait for an answer until a time is over run on fuel, one unit for an attempt:
--   Init/Retries/Ended and Found say how much is enough. A file is its content; a line of
--   bufio.Scanner has at most 65,535 bytes. What a failed write leaves of the daemon's two files
--   is a parameter.
--
-- What is not modelled
--   Log lines, delays but for those of init and of the backups, the transport of HTTP, the
--   running of programs, the marker files of etcd-start, and, but for the daemon's two files,
--   failures to write a file. The disk is taken not to change while etcd-start runs, but for its
--   own wipe; where the membership is read back, the theorems take nodes to have addresses of
--   digits and dots. The outer loops of the daemon and of the backups only wait around a cycle.
--   The proxy's sockets and the copying of bytes are not modelled, nor of init the making of
--   certificates, the checks of the passwords and the sequence as a whole. A number whose digits
--   overflow and that then has a byte that is no digit is read as 0, where strconv gives the
--   bound and an error. The directory of backups is a path that filepath.Join leaves as it is.
--   sort.Slice is taken to keep the order of files with one time, and the sum of their sizes to
--   stay below 2^63.
pub mod Base
pub mod Text
pub mod Number
pub mod Config
pub mod Topology
pub mod Init
pub mod Postgres
pub mod Identity
pub mod Etcd
pub mod Patroni
pub mod Start
pub mod Daemon
pub mod Backup
pub mod Proxy
mod Tests
