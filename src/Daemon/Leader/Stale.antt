-- ===== src/Daemon/Leader/Stale.antt =====
-- The node that is asked is the one that the leader's key names.
use flux_pg_cluster.Base.{
  ℕ, ◌≡◌, ◌≢◌, ◌↔◌, refl, ap, ◌∙◌, subst, Bool, true, false, Option, none, some, [], ◌∷◌, ◌++◌,
  ◌==◌, All, Bool-cases, inl, inr, arith,
}
use flux_pg_cluster.Config.{Config}
use flux_pg_cluster.Daemon.Leader.{leader_ip, leader_key, check_stale_patroni_leader}
use flux_pg_cluster.Patroni.{Network, Response, node_url, has_status, new, is_alive}
use flux_pg_cluster.Text.{Text, codes, is_empty, has_prefix, replace_all, trim_prefix}
use flux_pg_cluster.Text.Laws.{equal_iff, replace_all_byte, replace_all_other}
use flux_pg_cluster.Topology.{node_name_from_ip}
use flux_pg_cluster.Topology.Parts.{IsAddress, is_address_byte}

redot :
    (s : Text)
    → replace_all (b'-' ∷ s) (codes "-") (codes ".") ≡ b'.' ∷ replace_all s (codes "-") (codes ".")
redot s = rw (replace_all_byte b'-' s b'-' (codes ".")) refl

keep :
    (c : ℕ) (s : Text)
    → is_address_byte c ≡ true
    → replace_all (c ∷ s) (codes "-") (codes ".") ≡ c ∷ replace_all s (codes "-") (codes ".")
keep c s h = replace_all_other c s b'-' [] (codes ".") (ground arith)

is_dot : (c : ℕ) → (c == b'.') ≡ true → b'.' ≡ c
is_dot c h = ground arith

undashed :
    (s : Text)
    → All (λ c. is_address_byte c ≡ true) s
    → replace_all (replace_all s (codes ".") (codes "-")) (codes "-") (codes ".") ≡ s
undashed [] h = unfold replace_all in refl
undashed (c ∷ s) h =
    let rest = undashed s h.1 in
    elim (Bool-cases (c == b'.')) [
      | inl dot ↦
          rw (replace_all_byte c s b'.' (codes "-"), dot)
            (redot (replace_all s (codes ".") (codes "-"))
              ∙ ap (◌∷◌ b'.') rest
              ∙ ap (λ b. b ∷ s) (is_dot c dot))
      | inr other ↦
          rw (replace_all_byte c s b'.' (codes "-"), other)
            (keep c (replace_all s (codes ".") (codes "-")) h.0 ∙ ap (◌∷◌ c) rest)
    ]

trim_prefix-append : (s : Text) → trim_prefix (codes "node-" ++ s) (codes "node-") ≡ s
unfolding trim_prefix has_prefix
trim_prefix-append s = refl

-- The leader that is asked is the node of the name.
leader_ip-node_name : (ip : Text) → IsAddress ip → leader_ip (node_name_from_ip ip) ≡ ip
unfolding leader_ip node_name_from_ip
leader_ip-node_name ip a =
    ap (λ s. replace_all s (codes "-") (codes "."))
      (trim_prefix-append (replace_all ip (codes ".") (codes "-")))
    ∙ undashed ip a.dotted

node_name-nonempty : (ip : Text) → is_empty (node_name_from_ip ip) ≡ false
unfolding node_name_from_ip
node_name-nonempty ip = refl

-- Patroni at the address does not answer /health, or answers with a status other than 200 and 503.
abbrev pub GivesNoSign : Network → Config → Text → Type 0
GivesNoSign net cfg ip =
    (r : Response)
    → net (node_url (new cfg.ssl_enabled cfg.host_patroni_api_port) ip (codes "/health")) ≡ some r
    → (r.status ≢ 200) × (r.status ≢ 503)

has_status_iff :
    (o : Option Response)
    → (has_status (200 ∷ 503 ∷ []) o ≡ false)
      ↔ ((r : Response) → o ≡ some r → (r.status ≢ 200) × (r.status ≢ 503))
has_status_iff none = (λ e r h. cc h, λ h. refl)
has_status_iff (some q) = (
  λ e r h. subst (λ r. (r.status ≢ 200) × (r.status ≢ 503)) (some_eq h) (ground arith),
  λ h. ground (arith, h q refl),
)
  where
    some_eq : {a b : Response} → some a ≡ some b → a ≡ b
    some_eq h = cc h

is_alive_iff :
    (net : Network) (cfg : Config) (ip : Text)
    → (is_alive net (new cfg.ssl_enabled cfg.host_patroni_api_port) ip ≡ false)
      ↔ GivesNoSign net cfg ip
unfolding is_alive
is_alive_iff net cfg ip =
    has_status_iff
      (net (node_url (new cfg.ssl_enabled cfg.host_patroni_api_port) ip (codes "/health")))

-- Where the leader's key names a node by its dotted address, the key is removed exactly where this
-- node has data, is not that node, and Patroni at that very address does not answer /health, or
-- answers with a status other than 200 and 503.
pub check_stale_patroni_leader_iff :
    (cfg : Config) (net : Network) (has_global : Bool) (ip : Text)
    → IsAddress ip
    → (check_stale_patroni_leader cfg net has_global (some (node_name_from_ip ip))
        ≡ leader_key cfg ∷ [])
      ↔ ((has_global ≡ true) × (node_name_from_ip ip ≢ cfg.my_name) × GivesNoSign net cfg ip)
unfolding check_stale_patroni_leader
check_stale_patroni_leader_iff cfg net has_global ip a =
    let here = leader_ip-node_name ip a in
    let named = node_name-nonempty ip in
    let alive = is_alive_iff net cfg ip in
    let removed = removed_iff here named in
    (
      λ e. let (mine, other, silent) = removed.0 e in (mine, other, alive.0 silent),
      λ h. removed.1 (h.0, h.1, alive.1 h.2),
    )
  where
    removed_iff :
        leader_ip (node_name_from_ip ip) ≡ ip
        → is_empty (node_name_from_ip ip) ≡ false
        → (check_stale_patroni_leader cfg net has_global (some (node_name_from_ip ip))
            ≡ leader_key cfg ∷ [])
          ↔ ((has_global ≡ true)
              × (node_name_from_ip ip ≢ cfg.my_name)
              × (is_alive net (new cfg.ssl_enabled cfg.host_patroni_api_port) ip ≡ false))
    removed_iff here named =
        rw (here, named) (ground (arith, equal_iff (node_name_from_ip ip) cfg.my_name))
