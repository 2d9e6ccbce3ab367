-- ===== src/Daemon/Credentials.antt =====
-- `reconcilePostgresCredentials`: the roles' passwords, set again after a restore.
pub mod Literal
pub mod Primary
use flux_pg_cluster.Base.{
  Bool, true, false, not, ◌||◌, Option, none, some, List, [], ◌∷◌, ◌++◌, if◌then◌else◌,
}
use flux_pg_cluster.Config.{Config}
use flux_pg_cluster.Text.{Text, codes, equal, replace_all, trim_space}

-- `sqlLiteral`
unfoldable pub sql_literal : Text → Text
sql_literal value = codes "'" ++ (replace_all value (codes "'") (codes "''") ++ codes "'")

-- The statements in front of the first password, between the two, and behind the second.
abbrev pub sql_start : Text
sql_start =
    codes
      "\nDO $do$\nBEGIN\n  IF NOT EXISTS (SELECT 1 FROM pg_roles WHERE rolname = 'replicator') THEN\n    CREATE ROLE replicator WITH LOGIN REPLICATION;\n  END IF;\nEND\n$do$;\nALTER ROLE replicator WITH LOGIN REPLICATION PASSWORD "

abbrev pub sql_middle : Text
sql_middle = codes ";\nALTER ROLE postgres WITH LOGIN SUPERUSER REPLICATION PASSWORD "

abbrev pub sql_end : Text
sql_end = codes ";\n"

-- `postgresCredentialSQL`
unfoldable pub postgres_credential_sql : Config → Text
postgres_credential_sql cfg =
    sql_start
    ++ (sql_literal cfg.postgres_replication_password
        ++ (sql_middle ++ (sql_literal cfg.postgres_superuser_password ++ sql_end)))

-- What psql is given, and the marker file.
pub data Effect : Type 0 where
  ran_sql : Text → Effect
  wrote_marker : Effect

abbrev pub role_query : Text
role_query = codes "SELECT CASE WHEN pg_is_in_recovery() THEN 'replica' ELSE 'primary' END;\n"

-- Behind the query for the role, with the output of psql, where it succeeds.
abbrev pub apply_credentials : Config → (Text → Option Text) → Option Text → List Effect
apply_credentials cfg psql none = []
apply_credentials cfg psql (some out) =
    if not (equal (trim_space out) (codes "primary"))
    then []
    else ran_sql (postgres_credential_sql cfg)
      ∷ elim (psql (postgres_credential_sql cfg)) [ none ↦ [] | some _ ↦ wrote_marker ∷ [] ]

-- `reconcilePostgresCredentials`, with whether the marker and the data directory are there, and
-- what psql answers to a text.
unfoldable pub reconcile_postgres_credentials :
    Config → Bool → Bool → (Text → Option Text) → List Effect
reconcile_postgres_credentials cfg has_marker has_global psql =
    if has_marker || not has_global
    then []
    else ran_sql role_query ∷ apply_credentials cfg psql (psql role_query)
