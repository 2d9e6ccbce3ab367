-- ===== src/Daemon/SystemId/Wipe.antt =====
-- When `checkPatroniSystemID` deletes local PostgreSQL data.
use flux_pg_cluster.Base.{
  ◌≡◌, ◌≢◌, refl, sym, ◌∙◌, subst, ◌⊎◌, inl, inr, true, Option, none, some, List, [], ◌∷◌, Member,
  Member-append, arith, Option-cases,
}
use flux_pg_cluster.Base.Int.{ℤ}
use flux_pg_cluster.Config.{Config}
use flux_pg_cluster.Daemon.{should_fnf_now}
use flux_pg_cluster.Daemon.SystemId.{
  Surroundings, wiped_pg_data, Poll, poll_member, poll_members, heal_initialize, wipe_stale_data,
  zero_poll, check_known_id, check_key, check_patroni_system_id,
}
use flux_pg_cluster.Patroni.{NodeInfo}
use flux_pg_cluster.Postgres.{read_local_pg_system_id}
use flux_pg_cluster.Text.{Text, codes}
use flux_pg_cluster.Text.Laws.{equal_iff, is_empty_iff}

-- A node answers as the primary, with a system identifier.
pub record IsPrimary (w : Surroundings) (ip id : Text) : Type 0 where
  pub info : NodeInfo
  pub answered : w.info ip ≡ some info
  pub role : (info.role ≡ codes "primary") ⊎ (info.role ≡ codes "master")
  pub identifier : info.database_system_identifier ≡ id

-- A member's answer leaves the primary or makes it the primary.
poll_member-cases :
    (w : Surroundings) (etcd_sys_id ip : Text) (p : Poll) (o : Option NodeInfo)
    → w.info ip ≡ o
    → ((poll_member etcd_sys_id ip o p).primary_ip ≡ p.primary_ip)
        × ((poll_member etcd_sys_id ip o p).primary_sys_id ≡ p.primary_sys_id)
      ⊎ ((poll_member etcd_sys_id ip o p).primary_ip ≡ ip)
        × IsPrimary w ip (poll_member etcd_sys_id ip o p).primary_sys_id
unfolding poll_member
poll_member-cases w etcd_sys_id ip p none e = inl (refl, refl)
poll_member-cases w etcd_sys_id ip p (some info) e =
    ground (arith, equal_iff info.role (codes "primary"), equal_iff info.role (codes "master"))

-- What the poll knows of the primary is from before, or has been said by one of the members.
poll_members-cases :
    (w : Surroundings) (etcd_sys_id : Text) (ips : List Text) (p : Poll)
    → ((poll_members w etcd_sys_id ips p).primary_ip ≡ p.primary_ip)
        × ((poll_members w etcd_sys_id ips p).primary_sys_id ≡ p.primary_sys_id)
      ⊎ Member (poll_members w etcd_sys_id ips p).primary_ip ips
        × IsPrimary w
            (poll_members w etcd_sys_id ips p).primary_ip
            (poll_members w etcd_sys_id ips p).primary_sys_id
unfolding poll_members
poll_members-cases w etcd_sys_id [] p = inl (refl, refl)
poll_members-cases w etcd_sys_id (ip ∷ ips) p =
    let q = poll_member etcd_sys_id ip (w.info ip) p in
    let r = poll_members w etcd_sys_id ips q in
    elim (poll_members-cases w etcd_sys_id ips q) [
      | inr (m, primary) ↦ inr (inr m, primary)
      | inl (same_ip, same_id) ↦ elim (poll_member-cases w etcd_sys_id ip p (w.info ip) refl) [
        | inl (e, f) ↦ inl (same_ip ∙ e, same_id ∙ f)
        | inr (e, primary) ↦ inr (
          inl (sym (same_ip ∙ e)),
          subst (λ i. IsPrimary w i r.primary_sys_id) (sym (same_ip ∙ e))
              (subst (IsPrimary w ip) (sym same_id) primary),
        )
      ]
    ]

-- The grounds on which local data are deleted.
pub record IsCondemned (cfg : Config) (desired_ips : List Text) (wipe_cooldown_secs : ℤ)
    (w : Surroundings) : Type 0 where
  pub key : Text
  pub known : (w.initialize ≡ some key) × (key ≢ [])
  pub primary_ip : Text
  pub authoritative : Text
  pub desired : Member primary_ip desired_ips
  pub primary : IsPrimary w primary_ip authoritative
  pub elsewhere : cfg.my_ip ≢ primary_ip
  pub global : w.has_global ≡ true
  pub local_sys_id : Text
  pub readable : read_local_pg_system_id w.control_output ≡ some local_sys_id
  pub differs : local_sys_id ≢ authoritative
  pub allowed : cfg.allow_pg_data_wipe ≡ true
  pub cooled : should_fnf_now w.cooldown_file w.now wipe_cooldown_secs ≡ true

-- The tests of the second case, on the authoritative identifier.
record IsTested (cfg : Config) (secs : ℤ) (w : Surroundings) (id : Text) (p : Poll) : Type 0 where
  confirmed : (p.primary_ip ≢ []) × (p.primary_sys_id ≡ id)
  elsewhere : cfg.my_ip ≢ p.primary_ip
  global : w.has_global ≡ true
  local_sys_id : Text
  readable : read_local_pg_system_id w.control_output ≡ some local_sys_id
  differs : local_sys_id ≢ id
  allowed : cfg.allow_pg_data_wipe ≡ true
  cooled : should_fnf_now w.cooldown_file w.now secs ≡ true

wipe_stale_data-IsTested :
    (cfg : Config) (secs : ℤ) (w : Surroundings) (id : Text) (p : Poll)
    → Member wiped_pg_data (wipe_stale_data cfg secs w id p)
    → IsTested cfg secs w id p
unfolding wipe_stale_data
wipe_stale_data-IsTested cfg secs w id p m =
    elim (Option-cases (read_local_pg_system_id w.control_output)) [
      | inl unreadable ↦ ground arith
      | inr (local, readable) ↦ ground (
        arith,
        is_empty_iff p.primary_ip,
        equal_iff p.primary_sys_id id,
        equal_iff cfg.my_ip p.primary_ip,
        equal_iff local id,
      )
    ]

heal_initialize-keeps_data :
    (key : Text) (p : Poll) → ¬ Member wiped_pg_data (heal_initialize key p).0
unfolding heal_initialize
heal_initialize-keeps_data key p m = ground arith

check-known :
    (cfg : Config) (ips : List Text) (secs : ℤ) (w : Surroundings) (o : Option Text)
    → Member wiped_pg_data (check_key cfg ips secs w o)
    → (key : Text) × (o ≡ some key)
      × (key ≢ [])
      × Member wiped_pg_data (check_known_id cfg secs w key (poll_members w key ips zero_poll))
check-known cfg ips secs w none m = absurd m
check-known cfg ips secs w (some []) m = absurd m
check-known cfg ips secs w (some (c ∷ key)) m = (c ∷ key, refl, λ e. cc, m)

condemned :
    (cfg : Config) (ips : List Text) (secs : ℤ) (w : Surroundings) (key : Text) (p : Poll)
    (id : Text)
    → (w.initialize ≡ some key) × (key ≢ [])
    → ((p.primary_ip ≡ []) × (p.primary_sys_id ≡ []))
      ⊎ (Member p.primary_ip ips × IsPrimary w p.primary_ip p.primary_sys_id)
    → IsTested cfg secs w id p
    → IsCondemned cfg ips secs w
condemned cfg ips secs w key p id known (inl (silent, _)) t = absurd (t.confirmed.0 silent)
condemned cfg ips secs w key p id known (inr (m, primary)) t = record {
  key = key;
  known = known;
  primary_ip = p.primary_ip;
  authoritative = id;
  desired = m;
  primary = subst (IsPrimary w p.primary_ip) t.confirmed.1 primary;
  elsewhere = t.elsewhere;
  global = t.global;
  local_sys_id = t.local_sys_id;
  readable = t.readable;
  differs = t.differs;
  allowed = t.allowed;
  cooled = t.cooled;
}

-- Local PostgreSQL data are deleted only where the key /initialize can be read, another node
-- among those desired answers as the primary with the authoritative identifier, the local data
-- have a readable and different one, the operator has allowed the deletion, and its cooldown
-- has passed.
pub check_patroni_system_id-IsCondemned :
    (cfg : Config) (desired_ips : List Text) (wipe_cooldown_secs : ℤ) (w : Surroundings)
    → Member wiped_pg_data (check_patroni_system_id cfg desired_ips wipe_cooldown_secs w)
    → IsCondemned cfg desired_ips wipe_cooldown_secs w
unfolding check_patroni_system_id
check_patroni_system_id-IsCondemned cfg desired_ips wipe_cooldown_secs w m =
    let (key, known, ne_nil, n) = check-known cfg desired_ips wipe_cooldown_secs w w.initialize m in
    let p = poll_members w key desired_ips zero_poll in
    let (healed, authoritative) = heal_initialize key p in
    elim (Member-append wiped_pg_data healed
      (wipe_stale_data cfg wipe_cooldown_secs w authoritative p) n) [
        | inl early ↦ absurd (heal_initialize-keeps_data key p early)
        | inr late ↦
            condemned cfg desired_ips wipe_cooldown_secs w key p authoritative (known, ne_nil)
              (poll_members-cases w key desired_ips zero_poll)
              (wipe_stale_data-IsTested cfg wipe_cooldown_secs w authoritative p late)
      ]
