-- ===== src/Identity/Recovery/Sort.antt =====
-- The second loop of `evaluateRecoveryAuthority`: the data-bearing nodes by durable role.
use flux_pg_cluster.Base.{
  ◌≡◌, refl, subst, ◌⊎◌, inl, inr, none, some, List, [], ◌∷◌, ◌++◌, All, Member, Member-append,
  Member-append_left, Member-append_right, arith,
}
use flux_pg_cluster.Identity.{PeerIdentityResult, granted, bind-eq-granted}
use flux_pg_cluster.Identity.Recovery.{Roles, sort_node, sort_nodes}
use flux_pg_cluster.Text.{Text, codes}
use flux_pg_cluster.Text.Laws.{equal_iff}

abbrev pub role_of : PeerIdentityResult → Text
role_of r = r.identity.postgres_durable_role

-- The two ways through the loop's body.
abbrev BecamePrimary : PeerIdentityResult → Roles → Roles → Type 0
BecamePrimary n s t =
    (role_of n ≡ codes "primary")
    × (s.primary ≡ none)
    × (t ≡ record { primary = some n; replicas = s.replicas })

abbrev BecameReplica : PeerIdentityResult → Roles → Roles → Type 0
BecameReplica n s t =
    (role_of n ≡ codes "replica")
    × (t ≡ record { primary = s.primary; replicas = s.replicas ++ n ∷ [] })

sort_node-cases :
    (system_id : Text) (n : PeerIdentityResult) (s : Roles) {t : Roles}
    → sort_node system_id n s ≡ granted t
    → (n.identity.postgres_system_identifier ≡ system_id)
      × (BecamePrimary n s t ⊎ BecameReplica n s t)
unfolding sort_node
sort_node-cases system_id n s e = ground (
  arith,
  equal_iff n.identity.postgres_system_identifier system_id,
  equal_iff n.identity.postgres_durable_role (codes "primary"),
  equal_iff n.identity.postgres_durable_role (codes "replica"),
)

-- Where a node stands in the end.
abbrev pub Placed : Roles → PeerIdentityResult → Type 0
Placed t n =
    ((role_of n ≡ codes "primary") × (t.primary ≡ some n))
    ⊎ ((role_of n ≡ codes "replica") × Member n t.replicas)

-- What the loop has done between two values of its variables.
pub record Sorted (system_id : Text) (nodes : List PeerIdentityResult) (s t : Roles) : Type 0 where
  pub same_id : All (λ n. n.identity.postgres_system_identifier ≡ system_id) nodes
  pub placed : All (Placed t) nodes
  pub keeps_primary : (p : PeerIdentityResult) → s.primary ≡ some p → t.primary ≡ some p
  pub keeps_replica : (x : PeerIdentityResult) → Member x s.replicas → Member x t.replicas
  pub primary_from :
      (p : PeerIdentityResult)
      → t.primary ≡ some p
      → (s.primary ≡ some p) ⊎ (Member p nodes × (role_of p ≡ codes "primary"))
  pub replica_from :
      (x : PeerIdentityResult)
      → Member x t.replicas
      → Member x s.replicas ⊎ (Member x nodes × (role_of x ≡ codes "replica"))

module _ (system_id : Text) (n : PeerIdentityResult) (nodes : List PeerIdentityResult) (s : Roles)
    {t : Roles} (same : n.identity.postgres_system_identifier ≡ system_id) where
  Sorted-primary :
      role_of n ≡ codes "primary"
      → s.primary ≡ none
      → Sorted system_id nodes (record { primary = some n; replicas = s.replicas }) t
      → Sorted system_id (n ∷ nodes) s t
  Sorted-primary role free h = record {
    same_id = (same, h.same_id);
    placed = (inl (role, h.keeps_primary n refl), h.placed);
    keeps_primary = λ p e. cc;
    keeps_replica = λ x m. h.keeps_replica x m;
    primary_from = λ p e. elim (h.primary_from p e) [
      | inl same_node ↦
          let q : n ≡ p = cc in inr (inl q, subst (λ r. role_of r ≡ codes "primary") q role)
      | inr (m, r) ↦ inr (inr m, r)
    ];
    replica_from =
        λ x m. elim (h.replica_from x m) [ inl old ↦ inl old | inr (k, r) ↦ inr (inr k, r) ];
  }

  Sorted-replica :
      role_of n ≡ codes "replica"
      → Sorted system_id nodes (record { primary = s.primary; replicas = s.replicas ++ n ∷ [] }) t
      → Sorted system_id (n ∷ nodes) s t
  Sorted-replica role h = record {
    same_id = (same, h.same_id);
    placed = (
      inr (role, h.keeps_replica n (Member-append_right n s.replicas (n ∷ []) (inl refl))),
      h.placed,
    );
    keeps_primary = λ p e. h.keeps_primary p e;
    keeps_replica = λ x m. h.keeps_replica x (Member-append_left x s.replicas (n ∷ []) m);
    primary_from =
        λ p e. elim (h.primary_from p e) [ inl old ↦ inl old | inr (m, r) ↦ inr (inr m, r) ];
    replica_from = λ x m. elim (h.replica_from x m) [
      | inl old ↦ elim (Member-append x s.replicas (n ∷ []) old) [
        | inl before ↦ inl before
        | inr (inl q) ↦ inr (inl q, subst (λ r. role_of r ≡ codes "replica") q role)
        | inr (inr no_more) ↦ absurd no_more
      ]
      | inr (k, r) ↦ inr (inr k, r)
    ];
  }

pub sort_nodes-Sorted :
    (system_id : Text) (nodes : List PeerIdentityResult) (s : Roles) {t : Roles}
    → sort_nodes system_id nodes s ≡ granted t
    → Sorted system_id nodes s t
unfolding sort_nodes
sort_nodes-Sorted system_id [] s {t} e = subst (Sorted system_id [] s) (cc) (record {
  same_id = tt;
  placed = tt;
  keeps_primary = λ p e. e;
  keeps_replica = λ x m. m;
  primary_from = λ p e. inl e;
  replica_from = λ x m. inl m;
})
sort_nodes-Sorted system_id (n ∷ nodes) s {t} e =
    let (u, step, later) =
      bind-eq-granted (sort_node system_id n s) (λ r. sort_nodes system_id nodes r) e in
    let (same, way) = sort_node-cases system_id n s step in
    let rest = sort_nodes-Sorted system_id nodes u later in
    elim way [
      | inl (role, free, q) ↦
          Sorted-primary system_id n nodes s same role free
            (subst (λ v. Sorted system_id nodes v t) q rest)
      | inr (role, q) ↦
          Sorted-replica system_id n nodes s same role
            (subst (λ v. Sorted system_id nodes v t) q rest)
    ]
