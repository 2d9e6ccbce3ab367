-- ===== src/Init/Render.antt =====
-- `renderPatroniConfig` of cmd/flux-agent/init.go: the replacements of the placeholders.
use flux_pg_cluster.Base.{Bool, true, false, Option, none, some, List, [], ◌∷◌}
use flux_pg_cluster.Config.{Config, etcd_protocol}
use flux_pg_cluster.Config.File.{format_bool}
use flux_pg_cluster.Number.{itoa}
use flux_pg_cluster.Text.{Text, codes, replace_all}

-- `escapeYAMLSingle`
unfoldable pub escape_yaml_single : Text → Text
unfolding replace_all
escape_yaml_single s = replace_all s (codes "'") (codes "''")

abbrev pub on_off : Bool → Text
on_off true = codes "on"
on_off false = codes "off"

-- The map `replacements`, in the order of the source.
unfoldable pub replacements : Config → Text → List (Text × Text)
unfolding etcd_protocol itoa escape_yaml_single
replacements cfg pg_bin_dir =
    (codes "__MY_NAME__", cfg.my_name)
    ∷ (codes "__MY_IP__", cfg.my_ip)
    ∷ (codes "__PATRONI_ETCD_HOSTS__", cfg.patroni_etcd_hosts)
    ∷ (codes "__ETCD_PROTOCOL__", etcd_protocol cfg)
    ∷ (codes "__HOST_POSTGRES_PORT__", itoa cfg.host_postgres_port)
    ∷ (codes "__HOST_PATRONI_API_PORT__", itoa cfg.host_patroni_api_port)
    ∷ (codes "__POSTGRES_PORT__", itoa cfg.postgres_port)
    ∷ (codes "__PATRONI_API_PORT__", itoa cfg.patroni_api_port)
    ∷ (codes "__POSTGRES_DB__", cfg.postgres_db)
    ∷ (codes "__POSTGRES_SUPERUSER_PASSWORD__", escape_yaml_single cfg.postgres_superuser_password)
    ∷ (
      codes "__POSTGRES_REPLICATION_PASSWORD__",
      escape_yaml_single cfg.postgres_replication_password,
    )
    ∷ (codes "__SSL_ENABLED__", on_off cfg.ssl_enabled)
    ∷ (codes "__SYNCHRONOUS_MODE__", format_bool cfg.patroni_synchronous_mode)
    ∷ (codes "__SYNCHRONOUS_MODE_STRICT__", format_bool cfg.patroni_synchronous_mode_strict)
    ∷ (codes "__SYNCHRONOUS_NODE_COUNT__", itoa cfg.patroni_synchronous_node_count)
    ∷ (codes "__PATRONI_FAILSAFE_MODE__", format_bool cfg.patroni_failsafe_mode)
    ∷ (codes "__PATRONI_TTL__", itoa cfg.patroni_ttl)
    ∷ (codes "__PATRONI_LOOP_WAIT__", itoa cfg.patroni_loop_wait)
    ∷ (codes "__PATRONI_RETRY_TIMEOUT__", itoa cfg.patroni_retry_timeout)
    ∷ (codes "__PATRONI_MAX_LAG__", itoa cfg.patroni_max_lag)
    ∷ (codes "__PATRONI_MASTER_START_TIMEOUT__", itoa cfg.patroni_master_start_timeout)
    ∷ (codes "__PATRONI_MASTER_STOP_TIMEOUT__", itoa cfg.patroni_master_stop_timeout)
    ∷ (codes "__PATRONI_USE_SLOTS__", format_bool cfg.patroni_use_slots)
    ∷ (codes "__PATRONI_LOG_LEVEL__", cfg.patroni_log_level)
    ∷ (codes "__POSTGRES_BIN_DIR__", pg_bin_dir)
    ∷ []

-- The loop over the map, in the order that the iteration happens to take.
unfoldable pub substitute : List (Text × Text) → Text → Text
unfolding replace_all
substitute [] s = s
substitute ((k, v) ∷ rest) s = substitute rest (replace_all s k v)

-- `renderPatroniConfig`: what is written, or none where the template cannot be read. `order` is
-- the order in which Go's map is iterated, which is different at every run.
unfoldable pub render_patroni_config :
    (List (Text × Text) → List (Text × Text)) → Option Text → Config → Text → Option Text
unfolding substitute replacements
render_patroni_config order none cfg pg_bin_dir = none
render_patroni_config order (some template) cfg pg_bin_dir =
    some (substitute (order (replacements cfg pg_bin_dir)) template)
