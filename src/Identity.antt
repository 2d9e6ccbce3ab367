-- ===== src/Identity.antt =====
-- cmd/flux-agent/bootstrap_identity.go: what a node says of itself, and how it is asked.
-- A node's disk enters as `LocalDisk`, the peers' answers as functions.
pub mod Fresh
pub mod Recovery
pub mod Confirm
pub mod Endpoint
use flux_pg_cluster.Base.{
  ℕ, ◌≡◌, refl, Bool, true, false, not, ◌&&◌, ◌||◌, Option, none, some, List, [], ◌∷◌, map, ◌==◌,
  if◌then◌else◌,
}
use flux_pg_cluster.Config.{Config}
use flux_pg_cluster.Postgres.{
  PostgresControlData, PostgresRecoveryPosition, recovery_position, format_postgres_lsn,
  read_local_pg_control_data,
}
use flux_pg_cluster.Text.{Text, codes, equal, is_empty, equal_strings}
use flux_pg_cluster.Topology.{membership_names, node_name_from_ip}

-- `nodeIdentity`
pub record NodeIdentity : Type 0 where
  pub app_name : Text
  pub patroni_scope : Text
  pub node_name : Text
  pub pg_data_empty : Bool
  pub postgres_system_identifier : Text
  pub postgres_durable_role : Text
  pub postgres_control_state : Text
  pub postgres_timeline : ℕ
  pub postgres_wal_position : Text
  pub etcd_data_empty : Bool
  pub membership_view : List Text

-- `peerIdentityResult`; the flag is `Err != nil`.
pub record PeerIdentityResult : Type 0 where
  pub ip : Text
  pub identity : NodeIdentity
  pub failed : Bool

-- `recoveryAuthority`
pub record RecoveryAuthority : Type 0 where
  pub ip : Text
  pub node_name : Text
  pub system_id : Text

-- Why a check refuses, with the address of the node where the source's message names one.
pub data Refusal : Type 0 where
  wrong_count no_peers no_data_node etcd_retained no_candidate authority_changed : Refusal
  unreachable foreign_scope wrong_name has_postgres has_etcd wrong_view : Text → Refusal
  stray_metadata unreadable_id id_mismatch ambiguous_role no_position timeline_mismatch :
      Text → Refusal
  two_primaries : Text → Text → Refusal

pub data Verdict {ℓ} (A : Type ℓ) : Type ℓ where
  granted : A → Verdict A
  refused : Refusal → Verdict A

infixl 5 ◌>>=◌
abbrev pub ◌>>=◌ {ℓ κ} : {A : Type ℓ} {B : Type κ} → Verdict A → (A → Verdict B) → Verdict B
granted a >>= f = f a
refused why >>= f = refused why

pub bind-eq-granted {ℓ κ} :
    {A : Type ℓ} {B : Type κ} (m : Verdict A) (f : A → Verdict B) {b : B}
    → (m >>= f) ≡ granted b
    → (a : A) × (m ≡ granted a) × (f a ≡ granted b)
bind-eq-granted (granted a) f h = (a, refl, h)
bind-eq-granted (refused why) f h = cc

-- A directory: it is missing, cannot be read, or has entries, each with a name and whether it is
-- a regular file.
pub data Directory : Type 0 where
  missing unreadable : Directory
  entries : List (Text × Bool) → Directory

-- `directoryIsEmpty`
unfoldable pub directory_is_empty : Directory → Bool
directory_is_empty missing = true
directory_is_empty unreadable = false
directory_is_empty (entries es) = is_empty es

unfoldable pub only_marker : List (Text × Bool) → Bool
unfolding equal
only_marker [] = true
only_marker ((name, regular) ∷ es) =
    if not (equal name (codes ".etcd3_api")) || not regular then false else only_marker es

-- `etcdDataDirectoryIsFresh`
unfoldable pub etcd_data_directory_is_fresh : Directory → Bool
unfolding only_marker
etcd_data_directory_is_fresh missing = true
etcd_data_directory_is_fresh unreadable = false
etcd_data_directory_is_fresh (entries es) = only_marker es

-- What a node's disk holds: the two data directories, the output of pg_controldata, and whether
-- `global`, `standby.signal` and `recovery.signal` stand in the PostgreSQL directory, and
-- `member/snap/db` in the etcd directory.
pub record LocalDisk : Type 0 where
  pub pg_data : Directory
  pub etcd_data : Directory
  pub control_output : Option Text
  pub has_global : Bool
  pub has_standby_signal : Bool
  pub has_recovery_signal : Bool
  pub has_snapshot : Bool

-- `postgresDurableRole`
unfoldable pub postgres_durable_role : LocalDisk → Text
postgres_durable_role disk =
    if not disk.has_global
    then []
    else if disk.has_standby_signal || disk.has_recovery_signal
    then codes "replica"
    else codes "primary"

abbrev pub with_position : Option PostgresRecoveryPosition → NodeIdentity → NodeIdentity
with_position none identity = identity
with_position (some position) identity = record identity {
  postgres_timeline = position.timeline;
  postgres_wal_position = format_postgres_lsn position.lsn;
}

abbrev pub with_control : Option PostgresControlData → NodeIdentity → NodeIdentity
with_control none identity = identity
with_control (some control) identity = with_position (recovery_position control) (record identity {
  postgres_system_identifier = control.system_id;
  postgres_control_state = control.state;
})

abbrev pub bare_identity : Config → LocalDisk → NodeIdentity
bare_identity cfg disk = record {
  app_name = cfg.app_name;
  patroni_scope = cfg.patroni_scope;
  node_name = cfg.my_name;
  pg_data_empty = directory_is_empty disk.pg_data;
  postgres_system_identifier = [];
  postgres_durable_role = [];
  postgres_control_state = [];
  postgres_timeline = 0;
  postgres_wal_position = [];
  etcd_data_empty = etcd_data_directory_is_fresh disk.etcd_data;
  membership_view = membership_names cfg.etcd_initial_cluster;
}

-- `localNodeIdentity`
unfoldable pub local_node_identity : Config → LocalDisk → NodeIdentity
unfolding directory_is_empty etcd_data_directory_is_fresh postgres_durable_role
local_node_identity cfg disk =
    let identity = bare_identity cfg disk in
    if not identity.pg_data_empty
    then record (with_control (read_local_pg_control_data disk.control_output) identity) {
      postgres_durable_role = postgres_durable_role disk;
    }
    else identity

-- What the identity endpoint of a peer answers: nothing, a status other than 200, a body that is
-- no identity document, or a document.
pub data IdentityReply : Type 0 where
  no_reply bad_status bad_body : IdentityReply
  document : NodeIdentity → IdentityReply

abbrev pub zero_identity : NodeIdentity
zero_identity = record {
  app_name = [];
  patroni_scope = [];
  node_name = [];
  pg_data_empty = false;
  postgres_system_identifier = [];
  postgres_durable_role = [];
  postgres_control_state = [];
  postgres_timeline = 0;
  postgres_wal_position = [];
  etcd_data_empty = false;
  membership_view = [];
}

-- The fallback to Patroni: the system identifier that its REST API gives, where it gives one.
unfoldable pub patroni_fallback : Config → Text → Option Text → PeerIdentityResult
patroni_fallback cfg ip none = record { ip = ip; identity = zero_identity; failed = true }
patroni_fallback cfg ip (some system_id) =
    if is_empty system_id
    then record { ip = ip; identity = zero_identity; failed = true }
    else record {
      ip = ip;
      identity = record zero_identity {
        app_name = cfg.app_name;
        patroni_scope = cfg.patroni_scope;
        node_name = node_name_from_ip ip;
        postgres_system_identifier = system_id;
      };
      failed = false;
    }

-- `probePeerIdentity`, with the result that `probeAllPeerIdentities` makes of it.
unfoldable pub probe_peer_identity :
    Config → Text → IdentityReply → Option Text → PeerIdentityResult
unfolding patroni_fallback
probe_peer_identity cfg ip (document identity) patroni = record {
  ip = ip;
  identity = identity;
  failed = false;
}
probe_peer_identity cfg ip no_reply patroni = patroni_fallback cfg ip patroni
probe_peer_identity cfg ip bad_status patroni = record {
  ip = ip;
  identity = zero_identity;
  failed = true;
}
probe_peer_identity cfg ip bad_body patroni = record {
  ip = ip;
  identity = zero_identity;
  failed = true;
}

-- What one round of probes meets: the node's own disk, and each peer's answers.
pub record Evidence : Type 0 where
  pub disk : LocalDisk
  pub reply : Text → IdentityReply
  pub patroni_id : Text → Option Text

-- `probeAllPeerIdentities`: the results stand in the order of the addresses.
unfoldable pub probe_all_peer_identities : Config → Evidence → List Text → List PeerIdentityResult
probe_all_peer_identities cfg ev ips =
    map (λ ip. probe_peer_identity cfg ip (ev.reply ip) (ev.patroni_id ip)) ips
