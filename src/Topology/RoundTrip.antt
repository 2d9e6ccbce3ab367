-- ===== src/Topology/RoundTrip.antt =====
-- The topology texts give back the addresses from which they were built.
use mathlib.Core.List.{append-nil, append_assoc}
use flux_pg_cluster.Base.{
  append-ne-nil, ℕ, ◌≡◌, ◌≢◌, refl, sym, ap, ◌∙◌, false, some, List, [], ◌∷◌, ◌++◌, map, ◌==◌,
  if◌then◌else◌, All, arith, Bool-cases, inl, inr,
}
use flux_pg_cluster.Base.Int.{ℤ}
use flux_pg_cluster.Config.{Config}
use flux_pg_cluster.Number.{itoa}
use flux_pg_cluster.Text.{Text, cut, equal, is_empty, join, sort_strings, split, trim_space}
use flux_pg_cluster.Text.Laws.{cut-append, equal_iff, Lacks, split-join}
use flux_pg_cluster.Topology.{
  node_name_from_ip, host_port, etcd_url, initial_part, build_etcd_topology, extract_host_from_url,
  other_ip, other_ips_of_parts, other_ips_from_initial_cluster, names_of_parts, membership_names,
  split_csv_from, split_csv, strip_port, hosts_of_csv, candidate_ips,
}
use flux_pg_cluster.Topology.Parts.{
  IsAddress, host_port-All, comma-IsHarmless, colon-IsHarmless, ip-All, initial_part-Lacks_comma,
  extract-etcd_url, cut-initial_part, node_name-injective,
}

-- The addresses other than `me`, in order.
unfoldable pub others : Text → List Text → List Text
unfolding equal
others me [] = []
others me (ip ∷ ips) = let rest = others me ips in if equal ip me then rest else ip ∷ rest

equal-node_name :
    (a b : Text)
    → IsAddress a
    → IsAddress b
    → equal (node_name_from_ip a) (node_name_from_ip b) ≡ equal a b
equal-node_name a b h k = ground (
  arith,
  equal_iff a b,
  equal_iff (node_name_from_ip a) (node_name_from_ip b),
  node_name-injective a b h k,
)

other_ip-named :
    (name me url ip : Text)
    → extract_host_from_url url ≡ ip
    → ip ≢ []
    → other_ip me (some (name, url)) ≡ (if equal name me then [] else ip ∷ [])
unfolding other_ip
other_ip-named name me url [] e n = absurd (n refl)
other_ip-named name me url (c ∷ s) e n = rw e refl

other_ip-initial_part :
    (cfg : Config) (me ip : Text)
    → IsAddress me
    → IsAddress ip
    → other_ip (node_name_from_ip me) (cut b'=' (trim_space (initial_part cfg ip)))
      ≡ (if equal ip me then [] else ip ∷ [])
other_ip-initial_part cfg me ip m a =
    ap (other_ip (node_name_from_ip me)) (cut-initial_part cfg ip a) ∙ kept
  where
    kept :
        other_ip
          (node_name_from_ip me)
          (some (node_name_from_ip ip, etcd_url cfg ip cfg.host_etcd_peer_port))
        ≡ (if equal ip me then [] else ip ∷ [])
    kept =
        other_ip-named _ _ _ ip (extract-etcd_url cfg ip cfg.host_etcd_peer_port a) a.ne_nil
        ∙ rw (equal-node_name ip me a m) refl

other_ips_of_parts-map :
    (cfg : Config) (me : Text) (ips : List Text)
    → IsAddress me
    → All IsAddress ips
    → other_ips_of_parts (node_name_from_ip me) (map (initial_part cfg) ips) ≡ others me ips
unfolding other_ips_of_parts others
other_ips_of_parts-map cfg me [] m h = refl
other_ips_of_parts-map cfg me (ip ∷ ips) m h =
    rw (other_ip-initial_part cfg me ip m h.0)
      (rw (other_ips_of_parts-map cfg me ips m h.1) (ground arith))

parts-Lacks :
    (cfg : Config) (ips : List Text)
    → All IsAddress ips
    → All (Lacks b',') (map (initial_part cfg) ips)
parts-Lacks cfg [] h = tt
parts-Lacks cfg (ip ∷ ips) h = (initial_part-Lacks_comma cfg ip h.0, parts-Lacks cfg ips h.1)

-- A node that reads the membership it was given finds the addresses of all the other nodes, in
-- order, and its own nowhere, where all are addresses.
pub other_ips-topology :
    (cfg : Config) (me : Text) (ips : List Text)
    → IsAddress me
    → All IsAddress ips
    → other_ips_from_initial_cluster (build_etcd_topology cfg ips).initial (node_name_from_ip me)
      ≡ others me ips
unfolding other_ips_from_initial_cluster build_etcd_topology
other_ips-topology cfg me [] m h =
    unfold other_ips_of_parts others split other_ip cut trim_space in refl
other_ips-topology cfg me (ip ∷ ips) m h =
    ap (other_ips_of_parts (node_name_from_ip me)) (
      split-join b',' (initial_part cfg ip) (map (initial_part cfg) ips)
        (parts-Lacks cfg (ip ∷ ips) h))
    ∙ other_ips_of_parts-map cfg me (ip ∷ ips) m h

node_name-not-empty : (ip : Text) → is_empty (node_name_from_ip ip) ≡ false
unfolding node_name_from_ip
node_name-not-empty ip = refl

names_of_parts-map :
    (cfg : Config) (ips : List Text)
    → All IsAddress ips
    → names_of_parts (map (initial_part cfg) ips) ≡ map node_name_from_ip ips
unfolding names_of_parts
names_of_parts-map cfg [] h = refl
names_of_parts-map cfg (ip ∷ ips) h =
    rw (cut-initial_part cfg ip h.0) (
      rw (node_name-not-empty ip)
        (ap (◌∷◌ (node_name_from_ip ip)) (names_of_parts-map cfg ips h.1)))

-- The membership view of a topology is the sorted list of its nodes' names.
pub membership_names-topology :
    (cfg : Config) (ips : List Text)
    → All IsAddress ips
    → membership_names (build_etcd_topology cfg ips).initial
      ≡ sort_strings (map node_name_from_ip ips)
unfolding membership_names build_etcd_topology
membership_names-topology cfg [] h = unfold names_of_parts split cut trim_space sort_strings in refl
membership_names-topology cfg (ip ∷ ips) h =
    ap (λ parts. sort_strings (names_of_parts parts))
      (split-join b',' (initial_part cfg ip) (map (initial_part cfg) ips)
        (parts-Lacks cfg (ip ∷ ips) h))
    ∙ ap sort_strings (names_of_parts-map cfg (ip ∷ ips) h)

split_csv_from_cons :
    (cur : Text) (c : ℕ) (s : Text)
    → c ≢ b','
    → split_csv_from cur (c ∷ s) ≡ split_csv_from (cur ++ c ∷ []) s
split_csv_from_cons cur c s h = elim (Bool-cases (c == b',')) [
  | inl comma ↦ absurd (h (ground arith))
  | inr other ↦ unfold split_csv_from in rw (other, split_csv_from) refl
]

split_csv_from-append :
    (cur s t : Text)
    → Lacks b',' s
    → cur ++ s ≢ []
    → split_csv_from cur (s ++ b',' ∷ t) ≡ (cur ++ s) ∷ split_csv_from [] t
split_csv_from-append [] [] t h n = absurd (n refl)
split_csv_from-append (c ∷ cur) [] t h n =
    unfold split_csv_from in ap (λ p. p ∷ split_csv_from [] t) (sym (append-nil (c ∷ cur)))
split_csv_from-append cur (c ∷ s) t h n =
    split_csv_from_cons cur c (s ++ b',' ∷ t) h.0
    ∙ split_csv_from-append (cur ++ c ∷ []) s t h.1 (λ e. n (sym (append_assoc cur (c ∷ []) s) ∙ e))
    ∙ ap (λ p. p ∷ split_csv_from [] t) (append_assoc cur (c ∷ []) s)

split_csv_from_last :
    (cur s : Text) → Lacks b',' s → cur ++ s ≢ [] → split_csv_from cur s ≡ (cur ++ s) ∷ []
split_csv_from_last [] [] h n = absurd (n refl)
split_csv_from_last (c ∷ cur) [] h n =
    unfold split_csv_from in ap (λ p. p ∷ []) (sym (append-nil (c ∷ cur)))
split_csv_from_last cur (c ∷ s) h n =
    split_csv_from_cons cur c s h.0
    ∙ split_csv_from_last (cur ++ c ∷ []) s h.1 (λ e. n (sym (append_assoc cur (c ∷ []) s) ∙ e))
    ∙ ap (λ p. p ∷ []) (append_assoc cur (c ∷ []) s)

-- The scanner of proxy.go undoes a join of pieces that are neither empty nor hold a comma.
split_csv-join :
    (xs : List Text) → All (λ x. Lacks b',' x × (x ≢ [])) xs → split_csv (join (b',' ∷ []) xs) ≡ xs
unfolding split_csv join
split_csv-join [] h = unfold split_csv_from in refl
split_csv-join (x ∷ []) h = split_csv_from_last [] x h.0.0 h.0.1
split_csv-join (x ∷ y ∷ xs) h =
    split_csv_from-append [] x (join (b',' ∷ []) (y ∷ xs)) h.0.0 h.0.1
    ∙ ap (◌∷◌ x) (split_csv-join (y ∷ xs) h.1)

host_ports-pieces :
    (ips : List Text) (port : ℤ)
    → All IsAddress ips
    → All (λ x. Lacks b',' x × (x ≢ [])) (map (λ ip. host_port ip port) ips)
host_ports-pieces [] port h = tt
host_ports-pieces (ip ∷ ips) port h = (
  (host_port-All comma-IsHarmless ip h.0 port (omega arith), append-ne-nil ip _ h.0.ne_nil),
  host_ports-pieces ips port h.1,
)

strip_port_address :
    (ip : Text) (port : ℤ)
    → IsAddress ip
    → strip_port (cut b':' (host_port ip port)) (host_port ip port) ≡ ip
strip_port_address [] port a = absurd (a.ne_nil refl)
strip_port_address (c ∷ s) port a =
    rw (cut-append b':' (c ∷ s) (itoa port) (ip-All colon-IsHarmless (c ∷ s) a)) refl

hosts_of_csv-map :
    (ips : List Text) (port : ℤ)
    → All IsAddress ips
    → hosts_of_csv (map (λ ip. host_port ip port) ips) ≡ ips
unfolding hosts_of_csv
hosts_of_csv-map [] port h = refl
hosts_of_csv-map ([] ∷ ips) port h = absurd (h.0.ne_nil refl)
hosts_of_csv-map ((c ∷ s) ∷ ips) port h =
    rw (strip_port_address (c ∷ s) port h.0) (ap (◌∷◌ (c ∷ s)) (hosts_of_csv-map ips port h.1))

-- The proxy finds every address of the topology among its candidates, in order, and no other.
pub candidate_ips-topology :
    (cfg : Config) (ips : List Text)
    → All IsAddress ips
    → candidate_ips (record cfg { etcd_hosts = (build_etcd_topology cfg ips).hosts }) ≡ ips
unfolding candidate_ips build_etcd_topology
candidate_ips-topology cfg ips h =
    ap hosts_of_csv (split_csv-join _ (host_ports-pieces ips cfg.host_etcd_client_port h))
    ∙ hosts_of_csv-map ips cfg.host_etcd_client_port h
