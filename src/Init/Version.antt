-- ===== src/Init/Version.antt =====
-- The PostgreSQL of the image and of the data directory: `discoverPostgresBinDir` and
-- `checkPostgresDataVersion` of cmd/flux-agent/init.go.
use flux_pg_cluster.Base.{Bool, ◌&&◌, not, Option, none, some, List, [], ◌∷◌, ◌++◌, if◌then◌else◌}
use flux_pg_cluster.Text.{Text, codes, equal, is_empty, trim_space}

-- What reading PG_VERSION gives.
pub data VersionFile : Type 0 where
  absent : VersionFile
  unreadable : VersionFile
  holds : Text → VersionFile

-- `checkPostgresDataVersion`'s result.
pub data VersionCheck : Type 0 where
  accepted : VersionCheck
  read_error : VersionCheck
  mismatch : (existing_major expected_major : Text) → VersionCheck

abbrev pub compare_major : Text → VersionFile → VersionCheck
compare_major expected absent = accepted
compare_major expected unreadable = read_error
compare_major expected (holds content) =
    let existing = trim_space content in
    if equal existing expected then accepted else mismatch existing expected

-- `checkPostgresDataVersion`
unfoldable pub check_postgres_data_version : VersionFile → Text → VersionCheck
unfolding trim_space equal
check_postgres_data_version file expected_major =
    let expected = trim_space expected_major in
    if is_empty expected then accepted else compare_major expected file

abbrev pub bin_dir : Text → Text
bin_dir major = codes "/usr/lib/postgresql/" ++ major ++ codes "/bin"

-- The install paths in turn.
unfoldable pub installed : (Text → Bool) → List Text → Option Text
installed exists [] = none
installed exists (major ∷ majors) =
    let rest = installed exists majors in
    if exists (bin_dir major ++ codes "/postgres") then some (bin_dir major) else rest

-- `discoverPostgresBinDir`, for a POSTGRES_MAJOR that is one element of a path; `exists` is whether
-- os.Stat succeeds.
unfoldable pub discover_postgres_bin_dir : (Text → Bool) → Text → Option Text
unfolding trim_space installed
discover_postgres_bin_dir exists postgres_major =
    let major = trim_space postgres_major in
    let common = codes "17" ∷ codes "16" ∷ codes "15" ∷ codes "14" ∷ codes "13" ∷ [] in
    let probed = installed exists common in
    if not (is_empty major) && exists (bin_dir major ++ codes "/postgres")
    then some (bin_dir major)
    else probed
