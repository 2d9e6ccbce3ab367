-- ===== src/Daemon/Unreachable/Authority.antt =====
-- When the daemon starts a recovery.
use flux_pg_cluster.Base.{
  ℕ, ◌≡◌, refl, ◌⊎◌, inl, inr, Bool, true, ◌==◌, Option, none, some, List, [], ◌∷◌, All, Member,
  arith,
}
use flux_pg_cluster.Base.Int.{ℤ, leb_ℤ}
use flux_pg_cluster.Config.{Config}
use flux_pg_cluster.Daemon.{should_fnf_now}
use flux_pg_cluster.Daemon.Unreachable.{
  Surroundings, wrote_fnf_flag, Votes, add_vote, evaluate_peer_votes, next_count, act_on_authority,
  act_on_votes, act_on_verdict, act, handle_etcd_unreachable,
}
use flux_pg_cluster.Etcd.{Member as EtcdMember}
use flux_pg_cluster.Identity.{RecoveryAuthority, Verdict, granted, refused}
use flux_pg_cluster.Identity.Confirm.{confirm_recovery_authority_with_peers}
use flux_pg_cluster.Text.{Text}
use flux_pg_cluster.Text.Laws.{equal_iff}

-- The grounds for a recovery on this node.
pub record IsRecoverable (cfg : Config) (desired_ips : List Text) (desired_stable : Bool) (secs : ℤ)
    (w : Surroundings) : Type 0 where
  pub long : leb_ℤ cfg.etcd_unavailable_recovery_cycles (next_count w.unavail_file) ≡ true
  pub stable : desired_stable ≡ true
  pub enabled : cfg.dead_cluster_recovery ≡ true
  pub silent : All (λ ip. (ip ≡ cfg.my_ip) ⊎ (w.members ip ≡ none)) desired_ips
  pub authority : RecoveryAuthority
  pub confirmed : confirm_recovery_authority_with_peers cfg w.evidence ≡ granted authority
  pub mine : authority.ip ≡ cfg.my_ip
  pub cooled : should_fnf_now w.fnf_cooldown_file w.now secs ≡ true

add_vote-reachable :
    (o : Option (List EtcdMember)) (name : Text) (v : Votes)
    → (add_vote o name v).reachable ≡ 0
    → (o ≡ none) × (v.reachable ≡ 0)
add_vote-reachable none name v e = (refl, e)
add_vote-reachable (some ms) name v e = ground arith

votes_silent :
    (cfg : Config) (members : Text → Option (List EtcdMember)) (ips : List Text)
    → (evaluate_peer_votes cfg members ips).reachable ≡ 0
    → All (λ ip. (ip ≡ cfg.my_ip) ⊎ (members ip ≡ none)) ips
unfolding evaluate_peer_votes
votes_silent cfg members [] e = tt
votes_silent cfg members (ip ∷ ips) e =
    let rest = votes_silent cfg members ips in
    let vote = add_vote-reachable (members ip) cfg.my_name (evaluate_peer_votes cfg members ips) in
    ground (arith, equal_iff ip cfg.my_ip, rest, vote)

==-zero : (n : ℕ) → (n == 0) ≡ true → n ≡ 0
==-zero n e = ground arith

act_on_votes-flagless : (w : Surroundings) (v : Votes) → ¬ Member wrote_fnf_flag (act_on_votes w v)
unfolding act_on_votes
act_on_votes-flagless w v m = ground arith

act_on_verdict-flag :
    (cfg : Config) (secs : ℤ) (w : Surroundings) (v : Verdict RecoveryAuthority)
    → Member wrote_fnf_flag (act_on_verdict cfg secs w v)
    → (a : RecoveryAuthority) × (v ≡ granted a)
      × (a.ip ≡ cfg.my_ip)
      × (should_fnf_now w.fnf_cooldown_file w.now secs ≡ true)
unfolding act_on_authority
act_on_verdict-flag cfg secs w (refused why) m = absurd m
act_on_verdict-flag cfg secs w (granted a) m =
    (a, refl, ground (arith, equal_iff a.ip cfg.my_ip), ground (arith, equal_iff a.ip cfg.my_ip))

act-flag :
    (cfg : Config) (stable : Bool) (secs : ℤ) (w : Surroundings) (count : ℤ) (v : Votes)
    → Member wrote_fnf_flag (act cfg stable secs w count v)
    → (leb_ℤ cfg.etcd_unavailable_recovery_cycles count ≡ true)
      × (v.reachable ≡ 0)
      × (stable ≡ true)
      × (cfg.dead_cluster_recovery ≡ true)
      × Member wrote_fnf_flag
          (act_on_verdict cfg secs w (confirm_recovery_authority_with_peers cfg w.evidence))
unfolding act
act-flag cfg stable secs w count v m =
    let votes = act_on_votes-flagless w v in ground (arith, votes)

-- The daemon writes the force-new-cluster flag only where etcd has been unreachable for the
-- configured number of cycles, the desired nodes are stable, the recovery is enabled, no other
-- desired node has answered with a list of members, the repeated evidence of all nodes names this
-- very node, and the cooldown has passed.
pub handle_etcd_unreachable-IsRecoverable :
    (cfg : Config) (desired_ips : List Text) (desired_stable : Bool) (fnf_cooldown_secs : ℤ)
    (w : Surroundings)
    → Member wrote_fnf_flag
        (handle_etcd_unreachable cfg desired_ips desired_stable fnf_cooldown_secs w)
    → IsRecoverable cfg desired_ips desired_stable fnf_cooldown_secs w
unfolding handle_etcd_unreachable
handle_etcd_unreachable-IsRecoverable cfg desired_ips desired_stable fnf_cooldown_secs w (inl e) =
    cc
handle_etcd_unreachable-IsRecoverable cfg desired_ips desired_stable fnf_cooldown_secs w (inr m) =
    let (long, alone, stable, enabled, n) =
      act-flag cfg desired_stable fnf_cooldown_secs w (next_count w.unavail_file)
        (evaluate_peer_votes cfg w.members desired_ips) m in
    let (authority, confirmed, mine, cooled) = act_on_verdict-flag cfg fnf_cooldown_secs w _ n in
    record {
      long = long;
      stable = stable;
      enabled = enabled;
      silent = votes_silent cfg w.members desired_ips alone;
      authority = authority;
      confirmed = confirmed;
      mine = mine;
      cooled = cooled;
    }
