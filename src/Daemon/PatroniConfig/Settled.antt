-- ===== src/Daemon/PatroniConfig/Settled.antt =====
-- A repaired configuration is left alone, and nothing but a repaired configuration is written.
use flux_pg_cluster.Base.{◌≡◌, ◌≢◌, refl, ap, ◌∙◌, true, Option, none, some, arith, if◌then◌else◌}
use flux_pg_cluster.Config.{Config}
use flux_pg_cluster.Daemon.PatroniConfig.{
  bool, int, strings, object, Fields, no_fields, assign, set_default, map_or_new,
  required_patroni_hba, with_rewind, repair_hba, set_defaults, repair_postgresql, merge_fields,
  Decoded, malformed, nil_map, filled, compare_merged, merge_decoded, merge_patroni_recovery_config,
  new_config, reconcile_patroni_dcs_config,
}
use flux_pg_cluster.Daemon.PatroniConfig.Entries.{assign_same, set_default_known}
use flux_pg_cluster.Daemon.PatroniConfig.Repaired.{IsRepaired, merge_fields-IsRepaired}
use flux_pg_cluster.Daemon.PatroniConfig.Rules.{add_required_same}
use flux_pg_cluster.Text.Laws.{equal_iff}
use flux_pg_cluster.Text.{Text, codes, is_empty, trim_space}

module _ (cfg : Config) (root result : Fields) (h : IsRepaired cfg root result) where
  defaults_same : set_defaults cfg result ≡ result
  defaults_same =
      ap (set_default (codes "maximum_lag_on_failover") (int cfg.patroni_max_lag)) (
        ap (set_default (codes "retry_timeout") (int cfg.patroni_retry_timeout)) (
          ap (set_default (codes "loop_wait") (int cfg.patroni_loop_wait))
            (set_default_known (codes "ttl") _ _ result h.ttl)
          ∙ set_default_known (codes "loop_wait") _ _ result h.loop_wait)
        ∙ set_default_known (codes "retry_timeout") _ _ result h.retry_timeout)
      ∙ set_default_known (codes "maximum_lag_on_failover") _ _ result h.maximum_lag

  hba_same : repair_hba (with_rewind h.postgresql) ≡ h.postgresql
  hba_same =
      ap repair_hba (assign_same (codes "use_pg_rewind") (bool true) h.postgresql h.rewind)
      ∙ rw h.hba (
          ap (λ l. assign (codes "pg_hba") (strings l) h.postgresql)
            (add_required_same required_patroni_hba h.rules h.completed.complete))
      ∙ assign_same (codes "pg_hba") (strings h.rules) h.postgresql h.hba

  repaired_same : merge_fields cfg result ≡ result
  unfolding merge_fields
  repaired_same =
      ap repair_postgresql defaults_same
      ∙ ap
          (λ o.
            assign (codes "postgresql") (object (repair_hba (with_rewind (map_or_new o)))) result)
          h.stored
      ∙ ap (λ m. assign (codes "postgresql") (object m) result) hba_same
      ∙ assign_same (codes "postgresql") (object h.postgresql) result h.stored

-- Merging a second time changes nothing.
pub merge_fields-settled :
    (cfg : Config) (root : Fields)
    → merge_fields cfg (merge_fields cfg root) ≡ merge_fields cfg root
merge_fields-settled cfg root =
    repaired_same cfg root (merge_fields cfg root) (merge_fields-IsRepaired cfg root)

new_config-compare :
    (raw t : Text) (before after : Option Text)
    → new_config (compare_merged raw before after) ≡ some t
    → (b : Text) × (before ≡ some b) × (b ≢ t) × (after ≡ some t)
new_config-compare raw t none after e = cc e
new_config-compare raw t (some b) none e = cc e
new_config-compare raw t (some b) (some a) e =
    (b, refl, ground (arith, equal_iff b a), ground arith)

module _ (unmarshal : Text → Decoded) (marshal : Fields → Option Text) where
  -- What a written configuration comes from.
  pub record IsWritten (cfg : Config) (stored : Option Text) (t : Text) : Type 0 where
    pub raw : Text
    pub readable : stored ≡ some raw
    pub root : Fields
    pub decoded :
        (if is_empty (trim_space raw) then filled no_fields else unmarshal raw) ≡ filled root
    pub before : Text
    pub old : marshal root ≡ some before
    pub differs : before ≢ t
    pub result : Fields
    pub repaired : IsRepaired cfg root result
    pub encoded : marshal result ≡ some t

  merge_decoded-IsWritten :
      (cfg : Config) (raw t : Text) (d : Decoded)
      → (if is_empty (trim_space raw) then filled no_fields else unmarshal raw) ≡ d
      → new_config (merge_decoded unmarshal marshal raw cfg d) ≡ some t
      → IsWritten cfg (some raw) t
  merge_decoded-IsWritten cfg raw t malformed k e = cc e
  merge_decoded-IsWritten cfg raw t nil_map k e = cc e
  merge_decoded-IsWritten cfg raw t (filled root) k e =
      let (b, old, differs, encoded) =
        new_config-compare raw t (marshal root) (marshal (merge_fields cfg root)) e in
      record {
        raw = raw;
        readable = refl;
        root = root;
        decoded = k;
        before = b;
        old = old;
        differs = differs;
        result = merge_fields cfg root;
        repaired = merge_fields-IsRepaired cfg root;
        encoded = encoded;
      }

  -- The daemon writes Patroni's configuration only where the stored value can be read and decoded,
  -- an empty one counting as an empty map. What it writes encodes a repaired configuration: with
  -- the entries that were there, but for use_pg_rewind, which is true, for a postgresql that is no
  -- map, and for what is no rule in pg_hba; and with the defaults and the rules that were missing.
  -- It differs from the decoded value's own encoding.
  pub reconcile_patroni_dcs_config-IsWritten :
      (cfg : Config) (stored : Option Text) (t : Text)
      → reconcile_patroni_dcs_config unmarshal marshal cfg stored ≡ some t
      → IsWritten cfg stored t
  unfolding reconcile_patroni_dcs_config merge_patroni_recovery_config
  reconcile_patroni_dcs_config-IsWritten cfg none t e = cc e
  reconcile_patroni_dcs_config-IsWritten cfg (some raw) t e =
      merge_decoded-IsWritten cfg raw t _ refl e
