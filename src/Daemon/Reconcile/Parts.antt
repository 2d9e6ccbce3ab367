-- ===== src/Daemon/Reconcile/Parts.antt =====
-- What the parts of a cycle do and do not do: which of them can start a recovery or delete data.
use flux_pg_cluster.Base.{
  ◌≡◌, refl, ◌⊎◌, inl, inr, Bool, true, false, not, ◌&&◌, Option, none, some, List, [], ◌∷◌, ◌++◌,
  map, Member, Bool-cases, arith, if◌then◌else◌, length, leb, ltb,
}
use flux_pg_cluster.Base.Int.{leb_ℤ}
use flux_pg_cluster.Config.{Config}
use flux_pg_cluster.Daemon.{should_fnf_now}
use flux_pg_cluster.Daemon.Reconcile.{
  Surroundings, has_quorum, healthy, Effect, rejoined, restarted_split_brain, disagree,
  removed_leader_key, has_split_brain, unreachable, recovery, system_id, member, Cooldowns,
  recover_on, recover_quorum, reconcile_members, check_votes, check_members, or_nil,
}
use flux_pg_cluster.Daemon.Leader.{check_stale_patroni_leader}
use flux_pg_cluster.Daemon.Members.{
  Change, members_ips, remove_ghosts, remove_departed, promote_learners,
}
use flux_pg_cluster.Daemon.SystemId
use flux_pg_cluster.Daemon.SystemId.{check_patroni_system_id}
use flux_pg_cluster.Daemon.Unreachable.{
  trigger_force_new_cluster, evaluate_peer_votes, etcd_restart_cooldown_expired, wrote_fnf_flag,
  next_count,
}
use flux_pg_cluster.Etcd.{Member as EtcdMember}
use flux_pg_cluster.Identity.{RecoveryAuthority, Verdict, granted, refused}
use flux_pg_cluster.Identity.Confirm.{confirm_recovery_authority_with_peers}
use flux_pg_cluster.Text.{Text}
use flux_pg_cluster.Text.Laws.{equal_iff}

-- The flag that makes etcd-start force a new cluster, written on either way.
abbrev pub is_flag : Effect → Bool
is_flag (unreachable wrote_fnf_flag) = true
is_flag (recovery wrote_fnf_flag) = true
is_flag _ = false

abbrev pub is_wipe : Effect → Bool
is_wipe (system_id SystemId.wiped_pg_data) = true
is_wipe _ = false

-- Some effect is of the kind.
unfoldable pub Some : (Effect → Bool) → List Effect → Type 0
Some p [] = ⊥
Some p (x ∷ xs) = (p x ≡ true) ⊎ Some p xs

pub Some-append :
    (p : Effect → Bool) (xs ys : List Effect) → Some p (xs ++ ys) → Some p xs ⊎ Some p ys
unfolding Some
Some-append p [] ys m = inr m
Some-append p (x ∷ xs) ys (inl e) = inl (inl e)
Some-append p (x ∷ xs) ys (inr m) = elim (Some-append p xs ys m) [
  | inl l ↦ inl (inr l)
  | inr r ↦ inr r
]

-- What is not of the kind for any argument is not of it in a list.
pub Some-map :
    {A : Type 0} (p : Effect → Bool) (f : A → Effect) (xs : List A)
    → ((x : A) → p (f x) ≡ false)
    → ¬ Some p (map f xs)
unfolding Some
Some-map p f [] h m = m
Some-map p f (x ∷ xs) h (inl e) = cc (h x, e)
Some-map p f (x ∷ xs) h (inr m) = Some-map p f xs h m

pub Some-map_of :
    {A : Type 0} (p : Effect → Bool) (f : A → Effect) (a : A) (xs : List A)
    → ((x : A) → p (f x) ≡ true → x ≡ a)
    → Some p (map f xs)
    → Member a xs
unfolding Some
Some-map_of p f a [] h m = m
Some-map_of p f a (x ∷ xs) h (inl e) = inl (h x e)
Some-map_of p f a (x ∷ xs) h (inr m) = inr (Some-map_of p f a xs h m)

-- A restart that waits for its cooldown.
restart_lem :
    (expired : Bool) (p : Effect → Bool) (e : Effect)
    → p e ≡ false
    → ¬ Some p (if not expired then [] else e ∷ [])
unfolding Some
restart_lem true p e h (inl k) = cc (h, k)
restart_lem true p e h (inr m) = m
restart_lem false p e h m = m

module _ (cfg : Config) (cool : Cooldowns) (w : Surroundings) (desired_ips : List Text)
    (stable : Bool) where
  abbrev leader_part : List Effect
  leader_part =
      map removed_leader_key
        (check_stale_patroni_leader cfg w.patroni w.postgres.has_global w.leader_key)

  abbrev pub system_part : List Effect
  system_part = map system_id (check_patroni_system_id cfg desired_ips cool.pg_wipe_secs w.postgres)

  abbrev departed : List EtcdMember → List Change
  departed ms =
      remove_departed cfg.host_etcd_client_port desired_ips stable w.reachable ms (members_ips ms)

  abbrev learners : List EtcdMember → List Change
  learners ms = promote_learners desired_ips (healthy cfg w) ms

  -- What neither the leader's key nor the members concern comes of the system identifier.
  members_lem :
      (p : Effect → Bool) (ms : List EtcdMember)
      → ((t : Text) → p (removed_leader_key t) ≡ false)
      → ((c : Change) → p (member c) ≡ false)
      → Some p (reconcile_members cfg cool w desired_ips stable ms)
      → Some p system_part
  unfolding reconcile_members
  members_lem p ms h k m =
      elim (Some-append p leader_part
        (system_part ++ (map member (departed ms) ++ map member (learners ms))) m) [
          | inl a ↦ absurd (Some-map p removed_leader_key _ h a)
          | inr b ↦
              elim (Some-append p system_part (map member (departed ms) ++ map member (learners ms))
                b) [
                  | inl a ↦ a
                  | inr c ↦
                      elim (Some-append p (map member (departed ms)) (map member (learners ms)) c) [
                        | inl a ↦ absurd (Some-map p member (departed ms) k a)
                        | inr a ↦ absurd (Some-map p member (learners ms) k a)
                      ]
                ]
        ]

  votes_lem :
      (p : Effect → Bool)
      → p rejoined ≡ false
      → Some p (check_votes cfg cool w desired_ips stable)
      → Some p (reconcile_members cfg cool w desired_ips stable (or_nil w.members_after_ghosts))
  unfolding check_votes Some
  votes_lem p h m =
      elim (Bool-cases (disagree (evaluate_peer_votes cfg w.voter_members desired_ips))) [
        | inl differ ↦ absurd (
            restart_lem (etcd_restart_cooldown_expired w.etcd.restart_marker w.etcd.now) p rejoined
              h (rw differ at m))
        | inr other ↦ rw other at m
      ]

  pub check_members_lem :
      (p : Effect → Bool) (o : Option (List EtcdMember))
      → p rejoined ≡ false
      → p restarted_split_brain ≡ false
      → ((t : Text) → p (removed_leader_key t) ≡ false)
      → ((c : Change) → p (member c) ≡ false)
      → Some p (check_members cfg cool w desired_ips stable o)
      → Some p system_part
  check_members_lem p none a b h k m = absurd (unfold Some in m)
  check_members_lem p (some ms) a b h k m =
      elim (Bool-cases (
        leb (length ms) 1
        && (ltb 1 (length desired_ips) && has_split_brain cfg w (length ms) desired_ips))) [
          | inl split ↦ absurd (
              restart_lem (etcd_restart_cooldown_expired w.etcd.restart_marker w.etcd.now) p
                restarted_split_brain b (rw split at m))
          | inr other ↦
              elim (Some-append p (map member (remove_ghosts desired_ips ms))
                (check_votes cfg cool w desired_ips stable) (rw other at m)) [
                  | inl l ↦ absurd (Some-map p member (remove_ghosts desired_ips ms) k l)
                  | inr r ↦ members_lem p (or_nil w.members_after_ghosts) h k (votes_lem p a r)
                ]
        ]

  -- The grounds for a recovery while the local etcd answers: it has taken no write for as many
  -- cycles as the desired nodes must be stable for.
  pub record IsQuorumLost : Type 0 where
    pub no_quorum : has_quorum w ≡ false
    pub long : leb_ℤ cfg.desired_state_stability_cycles (next_count w.no_quorum_file) ≡ true
    pub settled : stable ≡ true
    pub global : w.postgres.has_global ≡ true
    pub authority : RecoveryAuthority
    pub confirmed : confirm_recovery_authority_with_peers cfg w.etcd.evidence ≡ granted authority
    pub mine : authority.ip ≡ cfg.my_ip
    pub cooled : should_fnf_now w.etcd.fnf_cooldown_file w.etcd.now cool.fnf_secs ≡ true

  recover_on_lem :
      (v : Verdict RecoveryAuthority) (effects : List Effect)
      → recover_on cfg cool w v ≡ some effects
      → (authority : RecoveryAuthority) × (v ≡ granted authority)
        × (authority.ip ≡ cfg.my_ip)
        × (should_fnf_now w.etcd.fnf_cooldown_file w.etcd.now cool.fnf_secs ≡ true)
        × (map recovery (trigger_force_new_cluster cfg authority.system_id w.etcd) ≡ effects)
  recover_on_lem (refused why) effects e = cc e
  recover_on_lem (granted a) effects e = (
    a,
    refl,
    ground (arith, equal_iff a.ip cfg.my_ip),
    ground (arith, equal_iff a.ip cfg.my_ip),
    ground (arith, equal_iff a.ip cfg.my_ip),
  )

  pub recover_quorum_lem :
      (effects : List Effect)
      → recover_quorum cfg cool w stable (next_count w.no_quorum_file) ≡ some effects
      → IsQuorumLost
        × ((id : Text) × (map recovery (trigger_force_new_cluster cfg id w.etcd) ≡ effects))
  unfolding recover_quorum
  recover_quorum_lem effects e =
      let (lost, long, settled, global, verdict) = tests e in
      let (a, confirmed, mine, cooled, made) = recover_on_lem _ effects verdict in
      (
        record {
          no_quorum = lost;
          long = long;
          settled = settled;
          global = global;
          authority = a;
          confirmed = confirmed;
          mine = mine;
          cooled = cooled;
        },
        (a.system_id, made),
      )
    where
      tests :
          recover_quorum cfg cool w stable (next_count w.no_quorum_file) ≡ some effects
          → (has_quorum w ≡ false)
            × (leb_ℤ cfg.desired_state_stability_cycles (next_count w.no_quorum_file) ≡ true)
            × (stable ≡ true)
            × (w.postgres.has_global ≡ true)
            × (recover_on cfg cool w (confirm_recovery_authority_with_peers cfg w.etcd.evidence)
                ≡ some effects)
      tests k = ground (arith, k)
