-- ===== src/Daemon.antt =====
-- cmd/flux-agent/daemon.go: the parts of the reconciliation that may delete PostgreSQL data.
pub mod SystemId
pub mod Unreachable
pub mod Tracker
pub mod Members
pub mod ClusterEnv
pub mod PatroniConfig
pub mod Credentials
pub mod Leader
pub mod Endpoint
pub mod Reconcile
use flux_pg_cluster.Base.{Bool, true, false, Option, none, some, if◌then◌else◌}
use flux_pg_cluster.Base.Int.{ℤ, pos, ◌-ℤ◌, ltb_ℤ, leb_ℤ, wrap_int64}
use flux_pg_cluster.Number.{atoi}
use flux_pg_cluster.Text.{Text, trim_space}

-- `shouldFNFNow`, at the content of the cooldown file, where it can be read, and the time.
unfoldable pub should_fnf_now : Option Text → ℤ → ℤ → Bool
should_fnf_now cooldown_file now cooldown_secs =
    if leb_ℤ cooldown_secs (pos 0) then true else elim cooldown_file [
      | none ↦ true
      | some content ↦
          let last = (atoi (trim_space content)).0 in
          let elapsed = wrap_int64 (now -ℤ last) in
          if ltb_ℤ elapsed cooldown_secs then false else true
    ]
