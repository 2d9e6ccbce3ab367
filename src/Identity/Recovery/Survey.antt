-- ===== src/Identity/Recovery/Survey.antt =====
-- The first loop of `evaluateRecoveryAuthority`: every node is consistent, and those with data
-- are collected in order.
use mathlib.Core.List.{append-nil, append_assoc}
use flux_pg_cluster.Base.{
  ◌≡◌, ◌≢◌, refl, sym, ap, ◌∙◌, subst, inl, inr, Bool, true, false, not, ◌&&◌, List, [], ◌∷◌, ◌++◌,
  All, Member, arith, Bool-cases, if◌then◌else◌,
}
use flux_pg_cluster.Config.{Config}
use flux_pg_cluster.Identity.{PeerIdentityResult, granted, bind-eq-granted}
use flux_pg_cluster.Identity.Recovery.{inspect_node, Survey, note_node, survey_nodes}
use flux_pg_cluster.Text.{Text, is_empty}
use flux_pg_cluster.Text.Laws.{equal_iff, equal_strings_iff}
use flux_pg_cluster.Topology.{node_name_from_ip}

-- What every node must have said for a recovery to be safe.
pub record IsConsistent (cfg : Config) (view : List Text) (r : PeerIdentityResult) : Type 0 where
  pub answered : r.failed ≡ false
  pub same_app : r.identity.app_name ≡ cfg.app_name
  pub same_scope : r.identity.patroni_scope ≡ cfg.patroni_scope
  pub right_name : r.identity.node_name ≡ node_name_from_ip r.ip
  pub same_view : r.identity.membership_view ≡ view
  pub readable : r.identity.pg_data_empty ≡ false → r.identity.postgres_system_identifier ≢ []
  pub no_metadata :
      r.identity.pg_data_empty ≡ true
      → (r.identity.postgres_system_identifier ≡ [])
        × (r.identity.postgres_durable_role ≡ [])
        × (r.identity.postgres_timeline ≡ 0)
        × (r.identity.postgres_wal_position ≡ [])

-- The nodes that bear PostgreSQL data.
unfoldable pub bearing : List PeerIdentityResult → List PeerIdentityResult
bearing [] = []
bearing (r ∷ rs) = let rest = bearing rs in if r.identity.pg_data_empty then rest else r ∷ rest

-- No node retains etcd state.
unfoldable pub all_etcd_empty : List PeerIdentityResult → Bool
all_etcd_empty [] = true
all_etcd_empty (r ∷ rs) = r.identity.etcd_data_empty && all_etcd_empty rs

is_empty-nil : (s : Text) → is_empty s ≡ true → s ≡ []
is_empty-nil [] h = refl
is_empty-nil (c ∷ s) h = cc

is_empty-cons : (s : Text) → is_empty s ≡ false → s ≢ []
is_empty-cons [] h e = cc
is_empty-cons (c ∷ s) h e = cc

inspect_node-IsConsistent :
    (cfg : Config) (view : List Text) (r : PeerIdentityResult) {b : Bool}
    → inspect_node cfg view r ≡ granted b
    → IsConsistent cfg view r × (b ≡ not r.identity.pg_data_empty)
unfolding inspect_node
inspect_node-IsConsistent cfg view r e = ground (
  arith,
  equal_iff r.identity.app_name cfg.app_name,
  equal_iff r.identity.patroni_scope cfg.patroni_scope,
  equal_iff r.identity.node_name (node_name_from_ip r.ip),
  equal_strings_iff r.identity.membership_view view,
  is_empty-nil r.identity.postgres_system_identifier,
  is_empty-cons r.identity.postgres_system_identifier,
  is_empty-nil r.identity.postgres_durable_role,
  is_empty-nil r.identity.postgres_wal_position,
)

bearing_skip :
    (r : PeerIdentityResult) (rs : List PeerIdentityResult)
    → r.identity.pg_data_empty ≡ true
    → bearing (r ∷ rs) ≡ bearing rs
unfolding bearing
bearing_skip r rs h = ground arith

bearing_keep :
    (r : PeerIdentityResult) (rs : List PeerIdentityResult)
    → r.identity.pg_data_empty ≡ false
    → bearing (r ∷ rs) ≡ r ∷ bearing rs
unfolding bearing
bearing_keep r rs h = ground arith

note_node-bearing :
    (r : PeerIdentityResult) (rs ns : List PeerIdentityResult) (b : Bool)
    → b ≡ not r.identity.pg_data_empty
    → (if b then ns ++ r ∷ [] else ns) ++ bearing rs ≡ ns ++ bearing (r ∷ rs)
note_node-bearing r rs ns true e =
    append_assoc ns (r ∷ []) (bearing rs) ∙ ap (◌++◌ ns) (sym (bearing_keep r rs (ground arith)))
note_node-bearing r rs ns false e = ap (◌++◌ ns) (sym (bearing_skip r rs (ground arith)))

-- What the loop has found when it ends.
pub record Surveyed (cfg : Config) (view : List Text) (rs : List PeerIdentityResult)
    (seen found : Survey) : Type 0 where
  pub consistent : All (IsConsistent cfg view) rs
  pub nodes : found.0 ≡ seen.0 ++ bearing rs
  pub empty : found.1 ≡ (seen.1 && all_etcd_empty rs)

pub survey_nodes-Surveyed :
    (cfg : Config) (view : List Text) (rs : List PeerIdentityResult) (seen : Survey)
    {found : Survey}
    → survey_nodes cfg view rs seen ≡ granted found
    → Surveyed cfg view rs seen found
unfolding survey_nodes bearing all_etcd_empty
survey_nodes-Surveyed cfg view [] seen e = record {
  consistent = tt;
  nodes = rw append-nil cc;
  empty = ground arith;
}
survey_nodes-Surveyed cfg view (r ∷ rs) seen e =
    let (b, i, later) = bind-eq-granted (inspect_node cfg view r) _ e in
    let (c, is) = inspect_node-IsConsistent cfg view r i in
    let s = survey_nodes-Surveyed cfg view rs (note_node r seen b) later in
    record {
      consistent = (c, s.consistent);
      nodes = s.nodes ∙ note_node-bearing r rs seen.0 b is;
      empty = s.empty ∙ ground arith;
    }

pub Member-bearing :
    (x : PeerIdentityResult) (rs : List PeerIdentityResult)
    → Member x rs
    → x.identity.pg_data_empty ≡ false
    → Member x (bearing rs)
Member-bearing x [] m e = absurd m
Member-bearing x (r ∷ rs) (inl p) e =
    subst (Member x)
      (sym (bearing_keep r rs (ap (λ (y : PeerIdentityResult). y.identity.pg_data_empty) p ∙ e)))
      (inl p)
Member-bearing x (r ∷ rs) (inr m) e =
    let n = Member-bearing x rs m e in
    elim (Bool-cases r.identity.pg_data_empty) [
      | inl empty ↦ subst (Member x) (sym (bearing_skip r rs empty)) n
      | inr bears ↦ subst (Member x) (sym (bearing_keep r rs bears)) (inr n)
    ]

pub bearing-Member :
    (x : PeerIdentityResult) (rs : List PeerIdentityResult)
    → Member x (bearing rs)
    → Member x rs × (x.identity.pg_data_empty ≡ false)
bearing-Member x [] m = absurd (unfold bearing in m)
bearing-Member x (r ∷ rs) m = elim (Bool-cases r.identity.pg_data_empty) [
  | inl empty ↦
      let p = bearing-Member x rs (subst (Member x) (bearing_skip r rs empty) m) in (inr p.0, p.1)
  | inr bears ↦ elim (subst (Member x) (bearing_keep r rs bears) m) [
    | inl e ↦ (inl e, ap (λ (y : PeerIdentityResult). y.identity.pg_data_empty) (sym e) ∙ bears)
    | inr n ↦ let p = bearing-Member x rs n in (inr p.0, p.1)
  ]
]

pub all_etcd_empty-All :
    (rs : List PeerIdentityResult)
    → all_etcd_empty rs ≡ true
    → All (λ r. r.identity.etcd_data_empty ≡ true) rs
unfolding all_etcd_empty
all_etcd_empty-All [] h = tt
all_etcd_empty-All (r ∷ rs) h = (ground arith, all_etcd_empty-All rs (ground arith))
