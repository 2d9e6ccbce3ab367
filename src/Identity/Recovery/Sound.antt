-- ===== src/Identity/Recovery/Sound.antt =====
-- What it takes for `evaluateRecoveryAuthority` to name an authority.
use flux_pg_cluster.Base.{
  ℕ, ◌<◌, ◌≡◌, refl, sym, ap, ◌∙◌, subst, ◌⊎◌, inl, inr, Bool, true, false, none, some, List, [],
  ◌∷◌, length, All, All-map, Member, All-Member, arith, Option-cases,
}
use flux_pg_cluster.Config.{Config}
use flux_pg_cluster.Identity.{
  NodeIdentity, PeerIdentityResult, RecoveryAuthority, granted, ◌>>=◌, bind-eq-granted,
}
use flux_pg_cluster.Identity.Recovery.{
  Survey, Roles, Selection, survey_nodes, sort_nodes, authority_of, choose, decide_authority,
  select_most_advanced_replica, all_nodes, evaluate_recovery_authority,
}
use flux_pg_cluster.Identity.Recovery.Select.{
  lsn_of, HasPosition, IsAhead, Wins, select_most_advanced_replica-Wins,
}
use flux_pg_cluster.Identity.Recovery.Sort.{role_of, Sorted, sort_nodes-Sorted}
use flux_pg_cluster.Identity.Recovery.Survey.{
  IsConsistent, survey_nodes-Surveyed, bearing, all_etcd_empty-All,
}
use flux_pg_cluster.Text.{Text, codes, less}
use flux_pg_cluster.Topology.{membership_names, other_ips_from_initial_cluster}

-- Replica `r` is at the position of `c` or behind it, on one timeline; a tie leaves `c` the name
-- that is not greater.
pub record IsBehind (r c : PeerIdentityResult) : Type 0 where
  pub lsn : ℕ
  pub best : ℕ
  pub parsed : lsn_of r ≡ some lsn
  pub best_parsed : lsn_of c ≡ some best
  pub order :
      (lsn < best) ⊎ ((lsn ≡ best) × (less r.identity.node_name c.identity.node_name ≡ false))

-- Why the data of `c` is preferred to that of `r`.
abbrev pub Outranked : PeerIdentityResult → PeerIdentityResult → Type 0
Outranked r c =
    (role_of r ≡ codes "replica")
    × ((role_of c ≡ codes "primary") ⊎ ((role_of c ≡ codes "replica") × IsBehind r c))

abbrev pub Bears : PeerIdentityResult → Type 0
Bears r = r.identity.pg_data_empty ≡ false

-- The choice among the nodes that bear data.
pub record IsChoice (nodes : List PeerIdentityResult) (a : RecoveryAuthority) : Type 0 where
  pub chosen : PeerIdentityResult
  pub member : Member chosen nodes
  pub described : a ≡ authority_of chosen.identity.postgres_system_identifier chosen
  pub one_history :
      All
        (λ r. r.identity.postgres_system_identifier ≡ chosen.identity.postgres_system_identifier)
        nodes
  pub outranks : All (λ r. (r ≡ chosen) ⊎ Outranked r chosen) nodes

IsAhead-IsBehind :
    (t : Selection) (r : PeerIdentityResult) → HasPosition t → IsAhead t r → IsBehind r t.selected
IsAhead-IsBehind t r p a = record {
  lsn = a.lsn;
  best = t.best.lsn;
  parsed = a.parsed;
  best_parsed = p.parsed;
  order = a.order;
}

granted-injective {ℓ} : {A : Type ℓ} {a b : A} → granted a ≡ granted b → a ≡ b
granted-injective e = cc

-- A choice, from one system identifier for all.
IsChoice-intro :
    (system_id : Text) (nodes : List PeerIdentityResult) (c : PeerIdentityResult)
    {a : RecoveryAuthority}
    → Member c nodes
    → All (λ r. r.identity.postgres_system_identifier ≡ system_id) nodes
    → All (λ r. (r ≡ c) ⊎ Outranked r c) nodes
    → authority_of system_id c ≡ a
    → IsChoice nodes a
IsChoice-intro system_id nodes c m same over e =
    let own =
      All-Member c (λ (r : PeerIdentityResult). r.identity.postgres_system_identifier ≡ system_id)
        nodes same m in
    record {
      chosen = c;
      member = m;
      described = sym e ∙ ap (λ i. authority_of i c) (sym own);
      one_history = All-map (λ r q. q ∙ sym own) nodes same;
      outranks = over;
    }

module _ (system_id : Text) (nodes : List PeerIdentityResult) (t : Roles) {a : RecoveryAuthority}
    (h : Sorted system_id nodes (record { primary = none; replicas = [] }) t) where
  IsChoice-primary :
      (p : PeerIdentityResult)
      → t.primary ≡ some p
      → authority_of system_id p ≡ a
      → IsChoice nodes a
  IsChoice-primary p found e = elim (h.primary_from p found) [
    | inl before ↦ cc
    | inr (m, role) ↦
        IsChoice-intro system_id nodes p m h.same_id
          (All-map
            (λ r place. elim place [
              | inl (_, q) ↦ inl (cc)
              | inr (replica, _) ↦ inr (replica, inl role)
            ])
            nodes h.placed)
          e
  ]

  IsChoice-replica :
      (s : Selection)
      → t.primary ≡ none
      → Wins t.replicas s
      → authority_of system_id s.selected ≡ a
      → IsChoice nodes a
  IsChoice-replica s lost w e = elim (h.replica_from s.selected w.member) [
    | inl before ↦ absurd before
    | inr (m, role) ↦
        IsChoice-intro system_id nodes s.selected m h.same_id
          (All-map
            (λ r place. elim place [
              | inl (_, q) ↦ cc
              | inr (replica, n) ↦ inr (
                replica,
                inr (
                  role,
                  IsAhead-IsBehind s r w.position (All-Member r (IsAhead s) t.replicas w.ahead n),
                ),
              )
            ])
            nodes h.placed)
          e
  ]

choose_lost :
    (system_id : Text) (t : Roles)
    → t.primary ≡ none
    → choose system_id t ≡ (
        select_most_advanced_replica t.replicas >>= λ s.
        granted (authority_of system_id s.selected))
choose_lost system_id t e = ground arith

choose_found :
    (system_id : Text) (t : Roles) (p : PeerIdentityResult)
    → t.primary ≡ some p
    → choose system_id t ≡ granted (authority_of system_id p)
choose_found system_id t p e = ground arith

choose-cases :
    (system_id : Text) (t : Roles) {a : RecoveryAuthority}
    → choose system_id t ≡ granted a
    → ((p : PeerIdentityResult) × (t.primary ≡ some p) × (authority_of system_id p ≡ a))
      ⊎ ((s : Selection) × (t.primary ≡ none)
          × (select_most_advanced_replica t.replicas ≡ granted s)
          × (authority_of system_id s.selected ≡ a))
choose-cases system_id t e = elim (Option-cases t.primary) [
  | inl lost ↦
      let (s, found, q) =
        bind-eq-granted (select_most_advanced_replica t.replicas)
          (λ s. granted (authority_of system_id s.selected))
          (sym (choose_lost system_id t lost) ∙ e) in
      inr (s, lost, found, granted-injective q)
  | inr (p, found) ↦ inl (p, found, granted-injective (sym (choose_found system_id t p found) ∙ e))
]

choose-IsChoice :
    (system_id : Text) (nodes : List PeerIdentityResult) (t : Roles) {a : RecoveryAuthority}
    → Sorted system_id nodes (record { primary = none; replicas = [] }) t
    → choose system_id t ≡ granted a
    → IsChoice nodes a
choose-IsChoice system_id nodes t h e = elim (choose-cases system_id t e) [
  | inl (p, found, q) ↦ IsChoice-primary system_id nodes t h p found q
  | inr (s, lost, found, q) ↦
      IsChoice-replica system_id nodes t h s lost
        (select_most_advanced_replica-Wins t.replicas found) q
]

decide_authority-IsChoice :
    (nodes : List PeerIdentityResult) (empty : Bool) {a : RecoveryAuthority}
    → decide_authority nodes empty ≡ granted a
    → IsChoice nodes a × ((length nodes ≡ 1) ⊎ (empty ≡ true))
unfolding decide_authority
decide_authority-IsChoice [] empty e = cc
decide_authority-IsChoice (n ∷ []) empty e = (
  IsChoice-intro n.identity.postgres_system_identifier (n ∷ []) n (inl refl) (refl, tt)
      (inl refl, tt) (granted-injective e),
  inl refl,
)
decide_authority-IsChoice (n ∷ m ∷ nodes) false e = cc
decide_authority-IsChoice (n ∷ m ∷ nodes) true e =
    let id = n.identity.postgres_system_identifier in
    let (t, sorted, chosen) =
      bind-eq-granted (sort_nodes id (n ∷ m ∷ nodes) (record { primary = none; replicas = [] }))
        (λ roles. choose id roles) e in
    (choose-IsChoice id (n ∷ m ∷ nodes) t (sort_nodes-Sorted id _ _ sorted) chosen, inr refl)

-- What every node's evidence must show for `a` to be the authority.
pub record IsAuthority (cfg : Config) (local : NodeIdentity) (rs : List PeerIdentityResult)
    (a : RecoveryAuthority) : Type 0 where
  pub complete :
      length rs ≡ length (other_ips_from_initial_cluster cfg.etcd_initial_cluster cfg.my_name)
  pub consistent :
      All (IsConsistent cfg (membership_names cfg.etcd_initial_cluster)) (all_nodes cfg local rs)
  pub choice : IsChoice (bearing (all_nodes cfg local rs)) a
  pub dcs_lost :
      (length (bearing (all_nodes cfg local rs)) ≡ 1)
      ⊎ All (λ r. r.identity.etcd_data_empty ≡ true) (all_nodes cfg local rs)

evaluate-parts :
    (cfg : Config) (local : NodeIdentity) (rs : List PeerIdentityResult) {a : RecoveryAuthority}
    → evaluate_recovery_authority cfg local rs ≡ granted a
    → (length rs ≡ length (other_ips_from_initial_cluster cfg.etcd_initial_cluster cfg.my_name))
      × ((survey_nodes cfg
              (membership_names cfg.etcd_initial_cluster)
              (all_nodes cfg local rs)
              ([], true)
            >>= λ (found : Survey). decide_authority found.0 found.1)
          ≡ granted a)
unfolding evaluate_recovery_authority
evaluate-parts cfg local rs e = ground arith

-- An authority is named only on complete and consistent evidence: every expected node answered
-- for itself with the same application, scope and membership; the authority bears data, every
-- other copy has its system identifier and is a replica that is outranked, either by the one
-- durable primary or by the most advanced replica; and there is a single copy, or no node
-- retains etcd state.
pub evaluate_recovery_authority-IsAuthority :
    (cfg : Config) (local : NodeIdentity) (rs : List PeerIdentityResult) {a : RecoveryAuthority}
    → evaluate_recovery_authority cfg local rs ≡ granted a
    → IsAuthority cfg local rs a
evaluate_recovery_authority-IsAuthority cfg local rs {a} e =
    let (counted, run) = evaluate-parts cfg local rs e in
    let (found, surveyed, decided) =
      bind-eq-granted
        (survey_nodes cfg (membership_names cfg.etcd_initial_cluster) (all_nodes cfg local rs)
          ([], true))
        (λ (found : Survey). decide_authority found.0 found.1) run in
    let s = survey_nodes-Surveyed cfg _ (all_nodes cfg local rs) ([], true) surveyed in
    let (choice, lost) = decide_authority-IsChoice found.0 found.1 decided in
    record {
      complete = counted;
      consistent = s.consistent;
      choice = subst (λ ns. IsChoice ns a) s.nodes choice;
      dcs_lost = elim lost [
        | inl sole ↦ inl (ap length (sym s.nodes) ∙ sole)
        | inr empty ↦ inr (all_etcd_empty-All _ (sym s.empty ∙ empty))
      ];
    }
