-- ===== src/Daemon/PatroniConfig.antt =====
-- `mergePatroniRecoveryConfig`: the settings that Patroni's dynamic configuration must have. A
-- Go map is a list of its entries, and json.Unmarshal and json.Marshal are parameters.
pub mod Entries
pub mod Rules
pub mod Repaired
pub mod Settled
use flux_pg_cluster.Base.{
  ℕ, Bool, true, false, Option, none, some, List, [], ◌∷◌, ◌++◌, if◌then◌else◌,
}
use flux_pg_cluster.Base.Int.{ℤ}
use flux_pg_cluster.Config.{Config}
use flux_pg_cluster.Text.{Text, codes, contains_string, equal, is_empty, trim_space}

-- The values of an `interface{}` that stand in a configuration: those that json.Unmarshal makes
-- (a float64 by its bits), and the `int` and `[]string` that the merge stores.
mutual
  pub data Json : Type 0 where
    null : Json
    bool : Bool → Json
    float : ℕ → Json
    int : ℤ → Json
    string : Text → Json
    array : Values → Json
    strings : List Text → Json
    object : Fields → Json

  pub data Values : Type 0 where
    no_values : Values
    value : Json → Values → Values

  pub data Fields : Type 0 where
    no_fields : Fields
    field : Text → Json → Fields → Fields

-- `m[key]`
unfoldable pub lookup : Text → Fields → Option Json
unfolding equal
lookup key no_fields = none
lookup key (field k v m) = let rest = lookup key m in if equal key k then some v else rest

-- `m[key] = v`
unfoldable pub assign : Text → Json → Fields → Fields
unfolding equal
assign key v no_fields = field key v no_fields
assign key v (field k w m) =
    let rest = assign key v m in if equal key k then field k v m else field k w rest

-- `setDefault`
unfoldable pub set_default : Text → Json → Fields → Fields
set_default key v root = elim (lookup key root) [ none ↦ assign key v root | some w ↦ root ]

-- The map of an entry, and a new one where the entry is no map.
abbrev pub map_or_new : Option Json → Fields
map_or_new (some (object m)) = m
map_or_new _ = no_fields

unfoldable pub string_values : Values → List Text
string_values no_values = []
string_values (value (string rule) vs) = rule ∷ string_values vs
string_values (value _ vs) = string_values vs

-- `existingHBA`
abbrev pub existing_hba : Option Json → List Text
existing_hba (some (array values)) = string_values values
existing_hba (some (strings rules)) = rules
existing_hba _ = []

-- `requiredPatroniHBA`
abbrev pub required_patroni_hba : List Text
required_patroni_hba =
    codes "hostssl replication replicator 0.0.0.0/0 cert clientcert=verify-full"
    ∷ codes "hostssl all all 0.0.0.0/0 md5"
    ∷ codes "host replication replicator 0.0.0.0/0 md5"
    ∷ codes "host all all 0.0.0.0/0 md5"
    ∷ []

-- The loop over the required rules.
unfoldable pub add_required : List Text → List Text → List Text
unfolding contains_string
add_required [] existing = existing
add_required (rule ∷ rules) existing =
    add_required rules (if contains_string existing rule then existing else existing ++ rule ∷ [])

abbrev pub with_rewind : Fields → Fields
with_rewind postgresql = assign (codes "use_pg_rewind") (bool true) postgresql

abbrev pub repair_hba : Fields → Fields
repair_hba postgresql =
    assign (codes "pg_hba")
      (strings
        (add_required required_patroni_hba (existing_hba (lookup (codes "pg_hba") postgresql))))
      postgresql

abbrev pub set_defaults : Config → Fields → Fields
set_defaults cfg root = set_default (codes "maximum_lag_on_failover") (int cfg.patroni_max_lag) (
    set_default (codes "retry_timeout") (int cfg.patroni_retry_timeout) (
      set_default (codes "loop_wait") (int cfg.patroni_loop_wait)
        (set_default (codes "ttl") (int cfg.patroni_ttl) root)))

abbrev pub repair_postgresql : Fields → Fields
repair_postgresql root =
    assign (codes "postgresql")
      (object (repair_hba (with_rewind (map_or_new (lookup (codes "postgresql") root))))) root

-- What the merge makes of a map.
unfoldable pub merge_fields : Config → Fields → Fields
merge_fields cfg root = repair_postgresql (set_defaults cfg root)

-- What json.Unmarshal does to the map `root`: it fails, makes it nil (on the text `null`), or
-- fills it.
pub data Decoded : Type 0 where
  malformed nil_map : Decoded
  filled : Fields → Decoded

-- What the merge returns, with its second result; storing into a nil map panics.
pub data Merge : Type 0 where
  fails panics : Merge
  returns : Text → Bool → Merge

abbrev pub compare_merged : Text → Option Text → Option Text → Merge
compare_merged raw none _ = fails
compare_merged raw (some before) none = fails
compare_merged raw (some before) (some encoded) =
    if equal before encoded then returns raw false else returns encoded true

-- What is written back: a configuration that has changed.
abbrev pub new_config : Merge → Option Text
new_config (returns merged true) = some merged
new_config _ = none

module _ (unmarshal : Text → Decoded) (marshal : Fields → Option Text) where
  abbrev pub merge_decoded : Text → Config → Decoded → Merge
  merge_decoded raw cfg malformed = fails
  merge_decoded raw cfg nil_map = panics
  merge_decoded raw cfg (filled root) =
      compare_merged raw (marshal root) (marshal (merge_fields cfg root))

  -- `mergePatroniRecoveryConfig`
  unfoldable pub merge_patroni_recovery_config : Text → Config → Merge
  merge_patroni_recovery_config raw cfg =
      merge_decoded raw cfg (if is_empty (trim_space raw) then filled no_fields else unmarshal raw)

  -- The value that `reconcilePatroniDCSConfig` sets the configuration to, from the one that the
  -- store holds, where it can be read.
  unfoldable pub reconcile_patroni_dcs_config : Config → Option Text → Option Text
  reconcile_patroni_dcs_config cfg none = none
  reconcile_patroni_dcs_config cfg (some raw) = new_config (merge_patroni_recovery_config raw cfg)
