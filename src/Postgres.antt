-- ===== src/Postgres.antt =====
-- cmd/flux-agent/daemon.go: write-ahead log positions, and the output of pg_controldata.
pub mod Laws
use flux_pg_cluster.Base.{
  ℕ, ◌+◌, ◌*◌, ◌/◌, ◌%◌, ◌^◌, Bool, true, false, ◌&&◌, ◌||◌, Option, none, some, List, [], ◌∷◌,
  ◌++◌, ◌==◌, ltb, if◌then◌else◌,
}
use flux_pg_cluster.Number.{parse_uint, print_hex}
use flux_pg_cluster.Text.{Text, codes, cut, equal, split, trim_space}

-- `postgresControlData`
pub record PostgresControlData : Type 0 where
  pub system_id : Text
  pub state : Text
  pub checkpoint_lsn : Text
  pub checkpoint_timeline : ℕ
  pub minimum_recovery_lsn : Text
  pub minimum_recovery_timeline : ℕ

-- `postgresRecoveryPosition`
pub record PostgresRecoveryPosition : Type 0 where
  pub timeline : ℕ
  pub lsn : ℕ

-- `high<<32 | low`, where both halves are below 2^32.
abbrev pub join_halves : ℕ × Bool → ℕ × Bool → Option ℕ
join_halves (high, true) (low, true) = some (high * 2 ^ 32 + low)
join_halves (high, true) (low, false) = none
join_halves (high, false) _ = none

abbrev pub lsn_of_parts : List Text → Option ℕ
lsn_of_parts (high ∷ low ∷ []) = join_halves (parse_uint high 16 32) (parse_uint low 16 32)
lsn_of_parts _ = none

-- `parsePostgresLSN`; `none` is an error.
unfoldable pub parse_postgres_lsn : Text → Option ℕ
parse_postgres_lsn value = lsn_of_parts (split b'/' (trim_space value))

-- `formatPostgresLSN`: %X of both halves.
unfoldable pub format_postgres_lsn : ℕ → Text
format_postgres_lsn value = print_hex (value / 2 ^ 32) ++ b'/' ∷ print_hex (value % 2 ^ 32)

abbrev pub empty_control_data : PostgresControlData
empty_control_data = record {
  system_id = [];
  state = [];
  checkpoint_lsn = [];
  checkpoint_timeline = 0;
  minimum_recovery_lsn = [];
  minimum_recovery_timeline = 0;
}

-- The switch over the trimmed key.
unfoldable pub set_control_field : Text → Text → PostgresControlData → PostgresControlData
unfolding equal parse_uint
set_control_field key value control =
    if equal key (codes "Database system identifier")
    then record control { system_id = value }
    else if equal key (codes "Database cluster state")
    then record control { state = value }
    else if equal key (codes "Latest checkpoint location")
    then record control { checkpoint_lsn = value }
    else if equal key (codes "Latest checkpoint's TimeLineID")
    then record control { checkpoint_timeline = (parse_uint value 10 64).0 }
    else if equal key (codes "Minimum recovery ending location")
    then record control { minimum_recovery_lsn = value }
    else if equal key (codes "Min recovery ending loc's timeline")
    then record control { minimum_recovery_timeline = (parse_uint value 10 64).0 }
    else control

abbrev pub set_cut : Option (Text × Text) → PostgresControlData → PostgresControlData
set_cut none control = control
set_cut (some (key, value)) control = set_control_field (trim_space key) (trim_space value) control

unfoldable pub parse_control_lines : List Text → PostgresControlData → PostgresControlData
unfolding set_control_field cut trim_space
parse_control_lines [] control = control
parse_control_lines (raw ∷ rest) control =
    parse_control_lines rest (set_cut (cut b':' (trim_space raw)) control)

-- `parsePostgresControlData`
unfoldable pub parse_postgres_control_data : Text → PostgresControlData
unfolding parse_control_lines split
parse_postgres_control_data out = parse_control_lines (split b'\n' out) empty_control_data

abbrev pub no_position : PostgresRecoveryPosition
no_position = record { timeline = 0; lsn = 0 }

-- `consider`, on the parsed position.
unfoldable pub consider : PostgresRecoveryPosition → ℕ → Option ℕ → PostgresRecoveryPosition
consider best timeline none = best
consider best timeline (some lsn) =
    if timeline == 0 || lsn == 0
    then best
    else if ltb best.timeline timeline || (timeline == best.timeline && ltb best.lsn lsn)
    then record { timeline = timeline; lsn = lsn }
    else best

-- `recoveryPosition`; `none` is an error.
unfoldable pub recovery_position : PostgresControlData → Option PostgresRecoveryPosition
unfolding consider
recovery_position control =
    let first =
      consider no_position control.checkpoint_timeline
        (parse_postgres_lsn control.checkpoint_lsn) in
    let best =
      consider first control.minimum_recovery_timeline
        (parse_postgres_lsn control.minimum_recovery_lsn) in
    if best.timeline == 0 || best.lsn == 0 then none else some best

-- `readLocalPGControlData`, from what the tool prints on: `none` where no tool is installed or it
-- fails.
unfoldable pub read_local_pg_control_data : Option Text → Option PostgresControlData
unfolding parse_postgres_control_data
read_local_pg_control_data none = none
read_local_pg_control_data (some out) =
    let control = parse_postgres_control_data out in
    if equal control.system_id [] then none else some control

abbrev pub system_id_of : Option PostgresControlData → Option Text
system_id_of none = none
system_id_of (some control) = some control.system_id

-- `readLocalPGSystemID`
unfoldable pub read_local_pg_system_id : Option Text → Option Text
unfolding read_local_pg_control_data
read_local_pg_system_id out = system_id_of (read_local_pg_control_data out)
