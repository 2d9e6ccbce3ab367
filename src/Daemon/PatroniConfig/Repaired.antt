-- ===== src/Daemon/PatroniConfig/Repaired.antt =====
-- What the merge makes of a configuration: what a recovered cluster needs is there, and the rest
-- is left as it was.
use flux_pg_cluster.Base.{
  ◌≡◌, ◌≢◌, refl, ap, ◌∙◌, subst, true, false, some, List, [], ◌∷◌, All, arith,
}
use flux_pg_cluster.Config.{Config}
use flux_pg_cluster.Daemon.PatroniConfig.{
  bool, int, strings, object, Fields, lookup, set_default, map_or_new, existing_hba,
  required_patroni_hba, add_required, with_rewind, repair_hba, set_defaults, repair_postgresql,
  merge_fields,
}
use flux_pg_cluster.Daemon.PatroniConfig.Entries.{
  lookup-assign, lookup-assign_other, or_default, lookup-set_default, lookup-set_default_other,
}
use flux_pg_cluster.Daemon.PatroniConfig.Rules.{
  MapOf, map_or_new-MapOf, RulesOf, existing_hba-RulesOf, Completes, add_required-Completes,
}
use flux_pg_cluster.Text.{Text, codes, equal}
use flux_pg_cluster.Text.Laws.{equal_iff}

-- The keys of the defaults.
abbrev pub default_keys : List Text
default_keys =
    codes "ttl" ∷ codes "loop_wait" ∷ codes "retry_timeout" ∷ codes "maximum_lag_on_failover" ∷ []

-- What a configuration has of another one: at the top level every entry but postgresql, and the
-- missing defaults from the agent's settings; under postgresql a map with every entry of the map
-- that was there, but for use_pg_rewind, which is true, and for pg_hba, which has the rules that
-- were there, in order, and the required ones that were missing.
pub record IsRepaired (cfg : Config) (root result : Fields) : Type 0 where
  pub ttl :
      lookup (codes "ttl") result
      ≡ some (or_default (lookup (codes "ttl") root) (int cfg.patroni_ttl))
  pub loop_wait :
      lookup (codes "loop_wait") result
      ≡ some (or_default (lookup (codes "loop_wait") root) (int cfg.patroni_loop_wait))
  pub retry_timeout :
      lookup (codes "retry_timeout") result
      ≡ some (or_default (lookup (codes "retry_timeout") root) (int cfg.patroni_retry_timeout))
  pub maximum_lag :
      lookup (codes "maximum_lag_on_failover") result
      ≡ some (or_default (lookup (codes "maximum_lag_on_failover") root) (int cfg.patroni_max_lag))
  pub others :
      (key : Text)
      → All (λ k. key ≢ k) default_keys
      → key ≢ codes "postgresql"
      → lookup key result ≡ lookup key root
  pub postgresql : Fields
  pub stored : lookup (codes "postgresql") result ≡ some (object postgresql)
  pub rewind : lookup (codes "use_pg_rewind") postgresql ≡ some (bool true)
  pub old_postgresql : Fields
  pub was_map : MapOf (lookup (codes "postgresql") root) old_postgresql
  pub old_rules : List Text
  pub were_rules : RulesOf (lookup (codes "pg_hba") old_postgresql) old_rules
  pub rules : List Text
  pub hba : lookup (codes "pg_hba") postgresql ≡ some (strings rules)
  pub completed : Completes required_patroni_hba old_rules rules
  pub parameters :
      (key : Text)
      → key ≢ codes "use_pg_rewind"
      → key ≢ codes "pg_hba"
      → lookup key postgresql ≡ lookup key old_postgresql

-- Keys that are told apart.
distinct : (a b : Text) → equal a b ≡ false → a ≢ b
distinct a b h e = ground (arith, equal_iff a b)

set_defaults_other :
    (cfg : Config) (root : Fields) (key : Text)
    → All (λ k. key ≢ k) default_keys
    → lookup key (set_defaults cfg root) ≡ lookup key root
set_defaults_other cfg root key h =
    lookup-set_default_other key (codes "maximum_lag_on_failover") _ _ h.1.1.1.0
    ∙ lookup-set_default_other key (codes "retry_timeout") _ _ h.1.1.0
    ∙ lookup-set_default_other key (codes "loop_wait") _ _ h.1.0
    ∙ lookup-set_default_other key (codes "ttl") _ _ h.0

module _ (cfg : Config) (root : Fields) where
  ttl_default :
      lookup (codes "ttl") (set_defaults cfg root)
      ≡ some (or_default (lookup (codes "ttl") root) (int cfg.patroni_ttl))
  unfolding equal
  ttl_default =
      lookup-set_default_other (codes "ttl") (codes "maximum_lag_on_failover") _ _
        (distinct _ _ refl)
      ∙ lookup-set_default_other (codes "ttl") (codes "retry_timeout") _ _ (distinct _ _ refl)
      ∙ lookup-set_default_other (codes "ttl") (codes "loop_wait") _ _ (distinct _ _ refl)
      ∙ lookup-set_default (codes "ttl") (int cfg.patroni_ttl) root

  loop_wait_default :
      lookup (codes "loop_wait") (set_defaults cfg root)
      ≡ some (or_default (lookup (codes "loop_wait") root) (int cfg.patroni_loop_wait))
  unfolding equal
  loop_wait_default =
      lookup-set_default_other (codes "loop_wait") (codes "maximum_lag_on_failover") _ _
        (distinct _ _ refl)
      ∙ lookup-set_default_other (codes "loop_wait") (codes "retry_timeout") _ _ (distinct _ _ refl)
      ∙ lookup-set_default (codes "loop_wait") (int cfg.patroni_loop_wait)
          (set_default (codes "ttl") (int cfg.patroni_ttl) root)
      ∙ ap (λ o. some (or_default o (int cfg.patroni_loop_wait)))
          (lookup-set_default_other (codes "loop_wait") (codes "ttl") _ _ (distinct _ _ refl))

  retry_timeout_default :
      lookup (codes "retry_timeout") (set_defaults cfg root)
      ≡ some (or_default (lookup (codes "retry_timeout") root) (int cfg.patroni_retry_timeout))
  unfolding equal
  retry_timeout_default =
      lookup-set_default_other (codes "retry_timeout") (codes "maximum_lag_on_failover") _ _
        (distinct _ _ refl)
      ∙ lookup-set_default (codes "retry_timeout") (int cfg.patroni_retry_timeout) (
          set_default (codes "loop_wait") (int cfg.patroni_loop_wait)
            (set_default (codes "ttl") (int cfg.patroni_ttl) root))
      ∙ ap (λ o. some (or_default o (int cfg.patroni_retry_timeout)))
          (lookup-set_default_other (codes "retry_timeout") (codes "loop_wait") _ _
              (distinct _ _ refl)
            ∙ lookup-set_default_other (codes "retry_timeout") (codes "ttl") _ _
                (distinct _ _ refl))

  maximum_lag_default :
      lookup (codes "maximum_lag_on_failover") (set_defaults cfg root)
      ≡ some (or_default (lookup (codes "maximum_lag_on_failover") root) (int cfg.patroni_max_lag))
  unfolding equal
  maximum_lag_default =
      lookup-set_default (codes "maximum_lag_on_failover") (int cfg.patroni_max_lag) (
        set_default (codes "retry_timeout") (int cfg.patroni_retry_timeout) (
          set_default (codes "loop_wait") (int cfg.patroni_loop_wait)
            (set_default (codes "ttl") (int cfg.patroni_ttl) root)))
      ∙ ap (λ o. some (or_default o (int cfg.patroni_max_lag)))
          (lookup-set_default_other (codes "maximum_lag_on_failover") (codes "retry_timeout") _ _
              (distinct _ _ refl)
            ∙ lookup-set_default_other (codes "maximum_lag_on_failover") (codes "loop_wait") _ _
                (distinct _ _ refl)
            ∙ lookup-set_default_other (codes "maximum_lag_on_failover") (codes "ttl") _ _
                (distinct _ _ refl))

merge-postgresql :
    (cfg : Config) (root : Fields)
    → lookup (codes "postgresql") (set_defaults cfg root) ≡ lookup (codes "postgresql") root
unfolding equal
merge-postgresql cfg root =
    set_defaults_other cfg root (codes "postgresql")
      (distinct _ _ refl, (distinct _ _ refl, (distinct _ _ refl, (distinct _ _ refl, tt))))

-- Under a key other than postgresql the repair leaves what the defaults have made.
repair_other :
    (root : Fields) (key : Text)
    → key ≢ codes "postgresql"
    → lookup key (repair_postgresql root) ≡ lookup key root
repair_other root key h = lookup-assign_other key (codes "postgresql") _ root h

-- At the top level the merge keeps every entry but postgresql and adds the missing defaults from
-- the agent's settings. Of postgresql, if it is a map, it keeps every entry but two: use_pg_rewind
-- becomes true, and pg_hba has the texts that it had, in order, followed by the required rules that
-- were missing. A postgresql that is no map is taken as an empty one, and a pg_hba that is no list
-- as one without rules.
pub merge_fields-IsRepaired :
    (cfg : Config) (root : Fields) → IsRepaired cfg root (merge_fields cfg root)
unfolding merge_fields equal
merge_fields-IsRepaired cfg root =
    let defaults = set_defaults cfg root in
    let old = map_or_new (lookup (codes "postgresql") root) in
    let pg = with_rewind (map_or_new (lookup (codes "postgresql") defaults)) in
    let same : map_or_new (lookup (codes "postgresql") defaults) ≡ old =
      ap map_or_new (merge-postgresql cfg root) in
    record {
      ttl = repair_other defaults (codes "ttl") (distinct _ _ refl) ∙ ttl_default cfg root;
      loop_wait =
          repair_other defaults (codes "loop_wait") (distinct _ _ refl)
          ∙ loop_wait_default cfg root;
      retry_timeout =
          repair_other defaults (codes "retry_timeout") (distinct _ _ refl)
          ∙ retry_timeout_default cfg root;
      maximum_lag =
          repair_other defaults (codes "maximum_lag_on_failover") (distinct _ _ refl)
          ∙ maximum_lag_default cfg root;
      others = λ key h k. repair_other defaults key k ∙ set_defaults_other cfg root key h;
      postgresql = repair_hba pg;
      stored = lookup-assign (codes "postgresql") _ defaults;
      rewind =
          lookup-assign_other (codes "use_pg_rewind") (codes "pg_hba") _ pg (distinct _ _ refl)
          ∙ lookup-assign (codes "use_pg_rewind") (bool true)
              (map_or_new (lookup (codes "postgresql") defaults));
      old_postgresql = old;
      was_map = map_or_new-MapOf (lookup (codes "postgresql") root);
      old_rules = existing_hba (lookup (codes "pg_hba") old);
      were_rules = existing_hba-RulesOf (lookup (codes "pg_hba") old);
      rules = add_required required_patroni_hba (existing_hba (lookup (codes "pg_hba") pg));
      hba = lookup-assign (codes "pg_hba") _ pg;
      completed =
          subst
            (λ l.
              Completes required_patroni_hba l
                (add_required required_patroni_hba (existing_hba (lookup (codes "pg_hba") pg))))
            (ap existing_hba (
              lookup-assign_other (codes "pg_hba") (codes "use_pg_rewind") (bool true)
                (map_or_new (lookup (codes "postgresql") defaults)) (distinct _ _ refl)
              ∙ ap (lookup (codes "pg_hba")) same))
            (add_required-Completes required_patroni_hba
              (existing_hba (lookup (codes "pg_hba") pg)));
      parameters = λ key h k.
          lookup-assign_other key (codes "pg_hba") _ pg k
          ∙ lookup-assign_other key (codes "use_pg_rewind") (bool true)
              (map_or_new (lookup (codes "postgresql") defaults)) h
          ∙ ap (lookup key) same;
    }
