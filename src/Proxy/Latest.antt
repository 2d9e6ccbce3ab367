-- ===== src/Proxy/Latest.antt =====
-- Which node the proxy sends its clients to, over any history of probes.
use flux_pg_cluster.Base.{
  Option, ◌≡◌, ◌≢◌, refl, sym, ap, ◌∙◌, subst, ◌⊎◌, inl, inr, false, List, [], ◌∷◌, All, All-Member,
  map, Member, arith,
}
use flux_pg_cluster.Config.{Config}
use flux_pg_cluster.Patroni.{Network}
use flux_pg_cluster.Topology.{candidate_ips, hosts_of_csv, strip_port}
use flux_pg_cluster.Proxy.{is_primary, store_found}
use flux_pg_cluster.Proxy.Probe.{Round, round_of, Ends, IsPrimary, Ends-Outcome}
use flux_pg_cluster.Text.{Text, cut}
use flux_pg_cluster.Text.Laws.{equal_iff, is_empty_iff}

-- The address that the proxy holds after the rounds, the latest first. Without candidates
-- `probePrimary` returns early, which leaves the address as a round without an end does.
pub data Holds : List Round → Text → Type 0 where
  at_start : Holds [] []
  after_round :
      (r : Round) (older : List Round) (prev found : Text)
      → Holds older prev
      → Ends r.role r.candidates [] found
      → Holds (r ∷ older) (store_found prev found)

-- A candidate answered as the primary.
abbrev pub Answered : Round → Text → Type 0
Answered r ip = Member ip r.candidates × IsPrimary r.role ip

-- No candidate did.
abbrev pub Silent : Round → Type 0
Silent r = All (λ ip. is_primary (r.role ip) ≡ false) r.candidates

-- The node answered as the primary in the latest round in which any node did; before, it is none.
abbrev pub LatestPrimary : List Round → Text → Type 0
LatestPrimary [] ip = ip ≡ []
LatestPrimary (r ∷ older) ip = Answered r ip ⊎ (Silent r × LatestPrimary older ip)

store_none : (prev : Text) → store_found prev [] ≡ prev
unfolding store_found
store_none prev = refl

store_some : (prev found : Text) → found ≢ [] → store_found prev found ≡ found
unfolding store_found
store_some prev found h = ground (arith, equal_iff found prev, is_empty_iff found)

abbrev pub HasAddresses : Round → Type 0
HasAddresses r = All (λ ip. ip ≢ []) r.candidates

Holds-cases :
    {rounds : List Round} {ip : Text}
    → All HasAddresses rounds
    → Holds rounds ip
    → LatestPrimary rounds ip
Holds-cases named at_start = refl
Holds-cases named (after_round r older prev found h e) = elim (Ends-Outcome r.role e) [
  | inl (m, p) ↦
      let k = store_some prev found (All-Member found (λ ip. ip ≢ []) r.candidates named.0 m) in
      inl (subst (λ ip. Answered r ip) (sym k) (m, p))
  | inr (same, silent) ↦
      let k = ap (store_found prev) same ∙ store_none prev in
      inr (silent, subst (LatestPrimary older) (sym k) (Holds-cases named.1 h))
]

hosts-ne-nil : (hs : List Text) → All (λ ip. ip ≢ []) (hosts_of_csv hs)
unfolding hosts_of_csv
hosts-ne-nil [] = tt
hosts-ne-nil (h ∷ hs) =
    let rest = hosts-ne-nil hs in
    let ip = strip_port (cut b':' h) h in
    ground (arith, is_empty_iff (strip_port (cut b':' h) h), rest)

round_of-HasAddresses :
    (cfg : Config) (look : Network × Option Text) → HasAddresses (round_of cfg look)
unfolding round_of candidate_ips
round_of-HasAddresses cfg (net, file) = hosts-ne-nil _

rounds_of-HasAddresses :
    (cfg : Config) (looks : List (Network × Option Text))
    → All HasAddresses (map (round_of cfg) looks)
rounds_of-HasAddresses cfg [] = tt
rounds_of-HasAddresses cfg (look ∷ looks) =
    (round_of-HasAddresses cfg look, rounds_of-HasAddresses cfg looks)

-- Whatever the order in which the goroutines of each round end, and whatever the nodes and the file
-- say in each, the proxy holds the address of a candidate that answered as a primary in the latest
-- round in which any candidate did, and none before the first such round.
pub Holds-LatestPrimary :
    (cfg : Config) (looks : List (Network × Option Text)) (ip : Text)
    → Holds (map (round_of cfg) looks) ip
    → LatestPrimary (map (round_of cfg) looks) ip
Holds-LatestPrimary cfg looks ip h = Holds-cases (rounds_of-HasAddresses cfg looks) h
