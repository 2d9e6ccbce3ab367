-- ===== src/Daemon/Reconcile/Justified.antt =====
-- The grounds on which a cycle starts a recovery, or deletes PostgreSQL data.
use flux_pg_cluster.Base.{
  ◌≡◌, refl, sym, subst, ◌⊎◌, inl, inr, Bool, true, false, not, Option, none, some, List, [], ◌∷◌,
  ◌++◌, map, Bool-cases, Option-cases, arith, if◌then◌else◌,
}
use flux_pg_cluster.Base.Int.{ℤ, pos}
use flux_pg_cluster.Config.{Config}
use flux_pg_cluster.Daemon.ClusterEnv.{Node}
use flux_pg_cluster.Daemon.Credentials
use flux_pg_cluster.Daemon.Credentials.{reconcile_postgres_credentials}
use flux_pg_cluster.Daemon.PatroniConfig.{Decoded, Fields, reconcile_patroni_dcs_config}
use flux_pg_cluster.Daemon.Reconcile.{
  Surroundings, has_endpoint, has_quorum, Effect, wrote_tracker, wrote_unavailable, unreachable,
  recovery, wrote_no_quorum, system_id, credentials, option_effect, set_patroni_config, Cooldowns,
  recover_quorum, check_members, or_else, note_quorum, reconcile_etcd, reconcile_answer,
  run_reconcile,
}
use flux_pg_cluster.Daemon.Reconcile.Parts.{
  is_flag, is_wipe, Some, Some-append, Some-map, Some-map_of, check_members_lem, IsQuorumLost,
  recover_quorum_lem,
}
use flux_pg_cluster.Daemon.SystemId
use flux_pg_cluster.Daemon.SystemId.{check_patroni_system_id}
use flux_pg_cluster.Daemon.SystemId.Wipe.{IsCondemned, check_patroni_system_id-IsCondemned}
use flux_pg_cluster.Daemon.Tracker.{update_state_tracker}
use flux_pg_cluster.Daemon.Unreachable
use flux_pg_cluster.Daemon.Unreachable.{
  wrote_fnf_flag, next_count, handle_etcd_unreachable, trigger_force_new_cluster,
}
use flux_pg_cluster.Daemon.Unreachable.Authority.{
  IsRecoverable, handle_etcd_unreachable-IsRecoverable,
}
use flux_pg_cluster.Text.{Text, codes, join}

-- What the tracker finds in a cycle.
abbrev pub is_stable : Surroundings → Node → List Text → Bool
is_stable w n desired_ips =
    (update_state_tracker w.tracker_file (join (codes ",") desired_ips)
      n.cfg.desired_state_stability_cycles).stable

module _ (unmarshal : Text → Decoded) (marshal : Fields → Option Text) where
  -- An effect of the kind is none of the bookkeeping.
  record IsGrave (p : Effect → Bool) : Type 0 where
    unavailable : (z : ℤ) → p (wrote_unavailable z) ≡ false
    tracker : (t : Text) → p (wrote_tracker t) ≡ false
    quorum : (z : ℤ) → p (wrote_no_quorum z) ≡ false
    config : (t : Text) → p (set_patroni_config t) ≡ false
    roles : (e : Credentials.Effect) → p (credentials e) ≡ false

  flag-IsGrave : IsGrave is_flag
  flag-IsGrave = record {
    unavailable = λ z. refl;
    tracker = λ t. refl;
    quorum = λ z. refl;
    config = λ t. refl;
    roles = λ e. refl;
  }

  wipe-IsGrave : IsGrave is_wipe
  wipe-IsGrave = record {
    unavailable = λ z. refl;
    tracker = λ t. refl;
    quorum = λ z. refl;
    config = λ t. refl;
    roles = λ e. refl;
  }

  grave_config :
      (p : Effect → Bool) (o : Option Text)
      → IsGrave p
      → ¬ Some p (option_effect set_patroni_config o)
  unfolding Some
  grave_config p none g m = m
  grave_config p (some t) g (inl e) = cc (g.config t, e)
  grave_config p (some t) g (inr m) = m

  module _ (p : Effect → Bool) (g : IsGrave p) where
    skip : (e : Effect) (es : List Effect) → p e ≡ false → Some p (e ∷ es) → Some p es
    unfolding Some
    skip e es h (inl k) = absurd (cc (h, k))
    skip e es h (inr m) = m

    choice_lem :
        (b : Bool) (xs ys : List Effect)
        → Some p (if not b then xs else ys)
        → ((b ≡ false) × Some p xs) ⊎ ((b ≡ true) × Some p ys)
    choice_lem true xs ys m = inr (refl, m)
    choice_lem false xs ys m = inl (refl, m)

    quorum_lem : (cfg : Config) (w : Surroundings) → ¬ Some p (note_quorum unmarshal marshal cfg w)
    unfolding note_quorum
    quorum_lem cfg w m = elim (Bool-cases (has_quorum w)) [
      | inl there ↦
          elim (Some-append p
            (option_effect set_patroni_config
              (reconcile_patroni_dcs_config unmarshal marshal cfg w.config_key))
            (map credentials
              (reconcile_postgres_credentials cfg w.has_marker w.postgres.has_global w.psql))
            (skip (wrote_no_quorum (pos 0)) _ (g.quorum (pos 0)) (rw there at m))) [
              | inl a ↦ grave_config p _ g a
              | inr a ↦ Some-map p credentials _ g.roles a
            ]
      | inr lost ↦ absurd (
          unfold Some in
          skip (wrote_no_quorum (next_count w.no_quorum_file)) [] (g.quorum _) (rw lost at m))
    ]

    -- Of a cycle with a local etcd, what is grave comes of a recovery or of the members' part.
    etcd_lem :
        (cfg : Config) (cool : Cooldowns) (w : Surroundings) (ips : List Text) (stable : Bool)
        → Some p (reconcile_etcd unmarshal marshal cfg cool w ips stable)
        → ((has_endpoint cfg w ≡ false)
            × Some p
                (map unreachable (handle_etcd_unreachable cfg ips stable cool.fnf_secs w.etcd)))
          ⊎ ((has_endpoint cfg w ≡ true)
              × Some p (
                  or_else
                    (recover_quorum cfg cool w stable (next_count w.no_quorum_file))
                    (check_members cfg cool w ips stable w.members)))
    unfolding reconcile_etcd
    etcd_lem cfg cool w ips stable m =
        let local = note_quorum unmarshal marshal cfg w in
        let later =
          or_else (recover_quorum cfg cool w stable (next_count w.no_quorum_file))
            (check_members cfg cool w ips stable w.members) in
        elim (choice_lem (has_endpoint cfg w)
          (map unreachable (handle_etcd_unreachable cfg ips stable cool.fnf_secs w.etcd))
          (wrote_unavailable (pos 0) ∷ (local ++ later)) m) [
            | inl gone ↦ inl gone
            | inr (there, k) ↦
                elim (Some-append p local later
                  (skip (wrote_unavailable (pos 0)) (local ++ later) (g.unavailable (pos 0)) k)) [
                    | inl a ↦ absurd (quorum_lem cfg w a)
                    | inr a ↦ inr (there, a)
                  ]
          ]

    -- The first step of a cycle, with the settings that it leaves.
    run_lem :
        (cool : Cooldowns) (w : Surroundings) (n : Node) (o : Option (List Text))
        → w.desired_ips ≡ o
        → Some p (reconcile_answer unmarshal marshal cool w n o).1
        → (ips : List Text) × (w.desired_ips ≡ some ips)
          × Some p (
              reconcile_etcd unmarshal marshal
                (reconcile_answer unmarshal marshal cool w n o).0.cfg
                cool
                w
                ips
                (is_stable w n ips))
    run_lem cool w n none e m = absurd (unfold Some in m)
    run_lem cool w n (some []) e m = absurd (unfold Some in m)
    run_lem cool w n (some (ip ∷ ips)) e m = (ip ∷ ips, e, skip (wrote_tracker _) _ (g.tracker _) m)

  flag_of : (e : Unreachable.Effect) → is_flag (unreachable e) ≡ true → e ≡ wrote_fnf_flag
  flag_of e h = ground arith

  etcd_flag :
      (cfg : Config) (cool : Cooldowns) (w : Surroundings) (ips : List Text) (stable : Bool)
      → Some is_flag (reconcile_etcd unmarshal marshal cfg cool w ips stable)
      → ((has_endpoint cfg w ≡ false) × IsRecoverable cfg ips stable cool.fnf_secs w.etcd)
        ⊎ ((has_endpoint cfg w ≡ true) × IsQuorumLost cfg cool w ips stable)
  etcd_flag cfg cool w ips stable m = elim (etcd_lem is_flag flag-IsGrave cfg cool w ips stable m) [
    | inl (gone, a) ↦ inl (
      gone,
      handle_etcd_unreachable-IsRecoverable cfg ips stable cool.fnf_secs w.etcd
          (Some-map_of is_flag unreachable wrote_fnf_flag _ flag_of a),
    )
    | inr (there, a) ↦
        elim (Option-cases (recover_quorum cfg cool w stable (next_count w.no_quorum_file))) [
          | inr (effects, e) ↦ inr (there, (recover_quorum_lem cfg cool w ips stable effects e).0)
          | inl none_made ↦ absurd (
              Some-map is_flag system_id _ (λ x. refl)
                (check_members_lem cfg cool w ips stable is_flag w.members refl refl (λ t. refl)
                  (λ c. refl)
                  (subst
                    (λ o. Some is_flag (or_else o (check_members cfg cool w ips stable w.members)))
                    none_made a)))
        ]
  ]

  wipe_of : (e : SystemId.Effect) → is_wipe (system_id e) ≡ true → e ≡ SystemId.wiped_pg_data
  wipe_of e h = ground arith

  etcd_wipe :
      (cfg : Config) (cool : Cooldowns) (w : Surroundings) (ips : List Text) (stable : Bool)
      → Some is_wipe (reconcile_etcd unmarshal marshal cfg cool w ips stable)
      → (has_endpoint cfg w ≡ true) × IsCondemned cfg ips cool.pg_wipe_secs w.postgres
  etcd_wipe cfg cool w ips stable m = elim (etcd_lem is_wipe wipe-IsGrave cfg cool w ips stable m) [
    | inl (gone, a) ↦ absurd (Some-map is_wipe unreachable _ (λ x. refl) a)
    | inr (there, a) ↦
        elim (Option-cases (recover_quorum cfg cool w stable (next_count w.no_quorum_file))) [
          | inr (effects, e) ↦
              let (id, made) = (recover_quorum_lem cfg cool w ips stable effects e).1 in
              absurd (
                Some-map is_wipe recovery (trigger_force_new_cluster cfg id w.etcd) (λ x. refl)
                  (subst (Some is_wipe) (sym made) (
                    subst
                      (λ o.
                        Some is_wipe (or_else o (check_members cfg cool w ips stable w.members)))
                      e a)))
          | inl none_made ↦ (
            there,
            check_patroni_system_id-IsCondemned cfg ips cool.pg_wipe_secs w.postgres (
                Some-map_of is_wipe system_id SystemId.wiped_pg_data _ wipe_of (
                  check_members_lem cfg cool w ips stable is_wipe w.members refl refl (λ t. refl)
                    (λ c. refl)
                    (subst
                      (λ o.
                        Some is_wipe (or_else o (check_members cfg cool w ips stable w.members)))
                      none_made a))),
          )
        ]
  ]

  -- A whole cycle writes the flag of a forced new cluster only where the Flux API has answered with
  -- desired nodes, and either the local etcd has been unreachable, with all the grounds of a
  -- recovery then; or it answers but has taken no write for the configured cycles, the desired nodes
  -- are stable, this node has data, the repeated evidence of all nodes names it, and the cooldown
  -- has passed. The settings are those that the cycle has brought up to date.
  pub run_reconcile-IsQuorumLost :
      (cool : Cooldowns) (w : Surroundings) (n : Node)
      → Some is_flag (run_reconcile unmarshal marshal cool w n).1
      → let cfg = (run_reconcile unmarshal marshal cool w n).0.cfg in
        (ips : List Text) × (w.desired_ips ≡ some ips)
        × (((has_endpoint cfg w ≡ false)
              × IsRecoverable cfg ips (is_stable w n ips) cool.fnf_secs w.etcd)
            ⊎ ((has_endpoint cfg w ≡ true) × IsQuorumLost cfg cool w ips (is_stable w n ips)))
  unfolding run_reconcile
  run_reconcile-IsQuorumLost cool w n m =
      let (ips, answered, k) = run_lem is_flag flag-IsGrave cool w n w.desired_ips refl m in
      (ips, answered, etcd_flag _ cool w ips (is_stable w n ips) k)

  -- A whole cycle deletes PostgreSQL data only where the Flux API has answered with desired nodes,
  -- the local etcd answers, and all the grounds of the check of the system identifier hold, for the
  -- settings that the cycle has brought up to date.
  pub run_reconcile-IsCondemned :
      (cool : Cooldowns) (w : Surroundings) (n : Node)
      → Some is_wipe (run_reconcile unmarshal marshal cool w n).1
      → let cfg = (run_reconcile unmarshal marshal cool w n).0.cfg in
        (ips : List Text) × (w.desired_ips ≡ some ips)
        × (has_endpoint cfg w ≡ true)
        × IsCondemned cfg ips cool.pg_wipe_secs w.postgres
  unfolding run_reconcile
  run_reconcile-IsCondemned cool w n m =
      let (ips, answered, k) = run_lem is_wipe wipe-IsGrave cool w n w.desired_ips refl m in
      let (there, condemned) = etcd_wipe _ cool w ips (is_stable w n ips) k in
      (ips, answered, there, condemned)
