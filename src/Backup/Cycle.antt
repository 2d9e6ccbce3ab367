-- ===== src/Backup/Cycle.antt =====
-- `runBackupCycle`: one attempt at a backup, and the settings of the loop around it.
pub mod Gated
use flux_pg_cluster.Base.{
  ◌+◌, ◌*◌, ℕ, Bool, true, false, not, ◌&&◌, ◌||◌, Option, none, some, List, [], ◌∷◌, ◌++◌, map,
  if◌then◌else◌,
}
use flux_pg_cluster.Base.Int.{ℤ, pos, negsuc, ltb_ℤ, wrap_int64}
use flux_pg_cluster.Backup.{BackupFile, Entry, prune_backups}
use flux_pg_cluster.Backup.Dump.{GzipStream, verify_dump}
use flux_pg_cluster.Config.{Config}
use flux_pg_cluster.Config.Env.{Environ, is_true_word, when_parsed}
use flux_pg_cluster.Number.{atoi}
use flux_pg_cluster.Patroni.{NodeInfo, Network, new, get_info}
use flux_pg_cluster.Text.{Text, codes, equal, is_empty, to_lower, trim_space}

abbrev pub text_of : Option Text → Text
text_of none = []
text_of (some v) = v

-- `envIntOr`, and `envInt64Or`, which trims.
unfoldable pub env_int_or : Environ → Text → ℤ → ℤ
env_int_or e key default =
    let v = text_of (e key) in if is_empty v then default else when_parsed (atoi v) default

unfoldable pub env_int64_or : Environ → Text → ℤ → ℤ
env_int64_or e key default =
    let v = trim_space (text_of (e key)) in
    if is_empty v then default else when_parsed (atoi v) default

-- `envBoolOr`
unfoldable pub env_bool_or : Environ → Text → Bool → Bool
env_bool_or e key default =
    let v = to_lower (trim_space (text_of (e key))) in
    if is_empty v then default else is_true_word v

-- `envStrOr`
unfoldable pub env_str_or : Environ → Text → Text → Text
env_str_or e key default = let v = trim_space (text_of (e key)) in if is_empty v then default else v

-- What `runBackup` reads once, with its clamps; none where backups are not enabled.
pub record Settings : Type 0 where
  pub dir : Text
  pub interval : ℤ
  pub retain : ℤ
  pub max_bytes : ℤ

abbrev pub at_least : ℤ → ℤ → ℤ
at_least low z = if ltb_ℤ z low then low else z

unfoldable pub backup_settings : Environ → Option Settings
backup_settings e =
    if not (env_bool_or e (codes "BACKUP_ENABLED") false)
    then none
    else some (record {
      dir = env_str_or e (codes "BACKUP_DIR") (codes "/var/lib/postgresql/backups");
      interval = at_least (pos 60) (env_int_or e (codes "BACKUP_INTERVAL_SECONDS") (pos 86400));
      retain = at_least (pos 1) (env_int_or e (codes "BACKUP_RETENTION_COUNT") (pos 1));
      max_bytes = env_int64_or e (codes "BACKUP_MAX_TOTAL_BYTES") (pos 0);
    })

-- `time.Duration(interval) * time.Second`, in nanoseconds, before it is cut to 64 bits.
abbrev pub times_second : ℤ → ℤ
times_second (pos n) = pos (n * 1000000000)
times_second (negsuc n) = negsuc (n * 1000000000 + 999999999)

-- The argument of time.Sleep between two attempts; a negative one returns at once.
unfoldable pub pause : Settings → ℤ
unfolding wrap_int64
pause s = wrap_int64 (times_second s.interval)

-- `localIsHealthyPrimary`, on the answer of the local Patroni, where there is one.
abbrev pub is_running_primary : Option NodeInfo → Bool
is_running_primary none = false
is_running_primary (some info) =
    (equal info.role (codes "primary") || equal info.role (codes "master"))
    && equal info.state (codes "running")

unfoldable pub local_is_healthy_primary : (Text → Option NodeInfo) → Network → Config → Bool
local_is_healthy_primary decode net cfg =
    is_running_primary
      (get_info decode net (new cfg.ssl_enabled cfg.patroni_api_port) (codes "127.0.0.1"))

-- What an attempt meets: the local Patroni; whether pg_dumpall is found, the directory can be made,
-- and the dump succeeds; the dump's size and content; whether it can be renamed; the directory
-- afterwards; and which files can be removed.
pub record Surroundings : Type 0 where
  pub network : Network
  pub has_dumpall : Bool
  pub makes_dir : Bool
  pub dumps : Bool
  pub size : Option ℕ
  pub stream : Option GzipStream
  pub renames : Bool
  pub entries : Option (List Entry)
  pub removes : Text → Bool
  pub timestamp : Text

pub data Effect : Type 0 where
  dumped : Text → Effect
  removed : Text → Effect
  renamed : Text → Text → Effect

abbrev pub final_path : Settings → Surroundings → Text
final_path s w = s.dir ++ (codes "/" ++ (codes "pgdumpall-" ++ (w.timestamp ++ codes ".sql.gz")))

abbrev pub temporary_path : Settings → Surroundings → Text
temporary_path s w = final_path s w ++ codes ".tmp"

abbrev pub path_removed : BackupFile → Effect
path_removed f = removed f.path

-- Behind the dump: the check, the promotion, and only then the pruning.
unfoldable pub promote_dump : Settings → Surroundings → List Effect
promote_dump s w =
    if not (verify_dump w.size w.stream)
    then removed (temporary_path s w) ∷ []
    else if not w.renames
    then removed (temporary_path s w) ∷ []
    else renamed (temporary_path s w) (final_path s w)
      ∷ map path_removed
          (prune_backups s.dir w.entries s.retain s.max_bytes (final_path s w) w.removes).0

-- `runBackupCycle`
unfoldable pub run_backup_cycle :
    (Text → Option NodeInfo) → Config → Settings → Surroundings → List Effect
run_backup_cycle decode cfg s w =
    let rest = promote_dump s w in
    if not (local_is_healthy_primary decode w.network cfg)
    then []
    else if not w.has_dumpall
    then []
    else if not w.makes_dir
    then []
    else dumped (temporary_path s w)
      ∷ (if not w.dumps then removed (temporary_path s w) ∷ [] else rest)
