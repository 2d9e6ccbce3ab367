-- ===== src/Daemon/Members/Departed.antt =====
-- Which members a reconciliation removes because they have left, and what a lookup by a part of the
-- address gets wrong.
use mathlib.Core.List.{append-nil, append_assoc}
use flux_pg_cluster.Number.{itoa}
use flux_pg_cluster.Base.{
  ◌≡◌, ◌≢◌, ◌↔◌, refl, sym, ap, subst, ◌⊎◌, inl, inr, Bool, true, false, some, List, [], ◌∷◌, ◌++◌,
  Member, Member-append, Member-append_left, Member-append_right, Bool-cases, arith,
}
use flux_pg_cluster.Base.Int.{ℤ}
use flux_pg_cluster.Config.{Config, etcd_protocol}
use flux_pg_cluster.Daemon.Members.{
  Change, removed, member_ip, members_ips, departed_change, remove_departed,
}
use flux_pg_cluster.Etcd.{Member as EtcdMember, find_by_client_ip}
use flux_pg_cluster.Text.{Text, codes, contains, contains_string, has_prefix}
use flux_pg_cluster.Text.Laws.{is_empty_iff}
use flux_pg_cluster.Topology.{etcd_url, extract_host_from_url, host_port}

abbrev pub host : EtcdMember → Text
host m = extract_host_from_url m.client_urls

-- The member has a client URL with a host.
abbrev pub IsStarted : EtcdMember → Type 0
IsStarted m = (m.client_urls ≢ []) × (host m ≢ [])

-- The text that a member is looked up by.
abbrev pub Shows : ℤ → EtcdMember → EtcdMember → Type 0
Shows port m n = contains n.client_urls (host_port (host m) port) ≡ true

-- Members that the lookup can tell apart: each has an identifier of its own, and shows the address
-- and the port of no started member but itself.
pub record IsTold (port : ℤ) (members : List EtcdMember) : Type 0 where
  pub own : (m : EtcdMember) → Member m members → IsStarted m → Shows port m m
  pub apart :
      (m n : EtcdMember)
      → Member m members
      → Member n members
      → IsStarted m
      → Shows port m n
      → n ≡ m
  pub ids : (m n : EtcdMember) → Member m members → Member n members → m.id ≡ n.id → m ≡ n
  pub named : (m : EtcdMember) → Member m members → m.id ≢ []

-- The member is no longer desired, and either the desired nodes are stable or it does not answer.
abbrev pub IsLeaving : List Text → Bool → (Text → Bool) → EtcdMember → Type 0
IsLeaving desired_ips stable reachable m =
    IsStarted m
    × (contains_string desired_ips (host m) ≡ false)
    × ((stable ≡ true) ⊎ (reachable (host m) ≡ false))

-- What a member adds to the list of addresses.
member_ip_iff :
    (m : EtcdMember) (ip : Text) → Member ip (member_ip m) ↔ (IsStarted m × (host m ≡ ip))
unfolding member_ip
member_ip_iff m ip = ground (arith, is_empty_iff m.client_urls, is_empty_iff (host m))

members_ips_of :
    (members : List EtcdMember) (m : EtcdMember)
    → Member m members
    → IsStarted m
    → Member (host m) (members_ips members)
unfolding members_ips
members_ips_of [] m k s = absurd k
members_ips_of (n ∷ members) m (inl e) s =
    Member-append_left (host m) (member_ip n) (members_ips members)
      ((member_ip_iff n (host m)).1 (subst IsStarted (sym e) s, ap host e))
members_ips_of (n ∷ members) m (inr k) s =
    Member-append_right (host m) (member_ip n) (members_ips members) (members_ips_of members m k s)

of_members_ips :
    (members : List EtcdMember) (ip : Text)
    → Member ip (members_ips members)
    → (m : EtcdMember) × Member m members × IsStarted m × (host m ≡ ip)
unfolding members_ips
of_members_ips [] ip k = absurd k
of_members_ips (n ∷ members) ip k = elim (Member-append ip (member_ip n) (members_ips members) k) [
  | inl here ↦ let (s, e) = (member_ip_iff n ip).0 here in (n, inl refl, s, e)
  | inr later ↦ let (m, j, s, e) = of_members_ips members ip later in (m, inr j, s, e)
]

-- The first member that shows a text is the only one that does.
find_only :
    (members : List EtcdMember) (text : Text) (m : EtcdMember)
    → Member m members
    → contains m.client_urls text ≡ true
    → ((n : EtcdMember) → Member n members → contains n.client_urls text ≡ true → n ≡ m)
    → find_by_client_ip members text ≡ some m
unfolding find_by_client_ip
find_only [] text m k c only = absurd k
find_only (n ∷ members) text m (inl e) c only =
    rw (subst (λ p. contains p.client_urls text ≡ true) (sym e) c) (ap some e)
find_only (n ∷ members) text m (inr k) c only = elim (Bool-cases (contains n.client_urls text)) [
  | inl shown ↦ rw shown (ap some (only n (inl refl) shown))
  | inr other ↦ rw other (find_only members text m k c (λ p j. only p (inr j)))
]

module _ (port : ℤ) (desired_ips : List Text) (stable : Bool) (reachable : Text → Bool)
    (members : List EtcdMember) where
  abbrev change_for : Text → List Change
  change_for = departed_change port desired_ips stable reachable members

  remove_departed_of :
      (ips : List Text) (ip : Text) (c : Change)
      → Member ip ips
      → Member c (change_for ip)
      → Member c (remove_departed port desired_ips stable reachable members ips)
  unfolding remove_departed
  remove_departed_of [] ip c k h = absurd k
  remove_departed_of (x ∷ ips) ip c (inl e) h =
      Member-append_left c (change_for x) _ (subst (λ y. Member c (change_for y)) (sym e) h)
  remove_departed_of (x ∷ ips) ip c (inr k) h =
      Member-append_right c (change_for x) _ (remove_departed_of ips ip c k h)

  of_remove_departed :
      (ips : List Text) (c : Change)
      → Member c (remove_departed port desired_ips stable reachable members ips)
      → (ip : Text) × Member ip ips × Member c (change_for ip)
  unfolding remove_departed
  of_remove_departed [] c k = absurd k
  of_remove_departed (x ∷ ips) c k = elim (Member-append c (change_for x) _ k) [
    | inl here ↦ (x, inl refl, here)
    | inr later ↦ let (ip, j, h) = of_remove_departed ips c later in (ip, inr j, h)
  ]

  -- Where the lookup finds a member with an identifier.
  change_for_found :
      (ip : Text) (m : EtcdMember) (id : Text)
      → find_by_client_ip members (host_port ip port) ≡ some m
      → m.id ≢ []
      → Member (removed id) (change_for ip) ↔ (
          (contains_string desired_ips ip ≡ false)
          × ((stable ≡ true) ⊎ (reachable ip ≡ false))
          × (m.id ≡ id))
  unfolding departed_change
  change_for_found ip m id e n = rw e (ground (arith, is_empty_iff m.id))

  -- Where the members can be told apart, a member is removed exactly where its address is no
  -- longer desired, and either the desired nodes are stable or it does not answer.
  pub remove_departed_iff :
      IsTold port members
      → (m : EtcdMember) → Member m members
      → Member
          (removed m.id)
          (remove_departed port desired_ips stable reachable members (members_ips members))
        ↔ IsLeaving desired_ips stable reachable m
  remove_departed_iff told m k = (gone, leaves)
    where
      found :
          (n : EtcdMember)
          → Member n members
          → IsStarted n
          → find_by_client_ip members (host_port (host n) port) ≡ some n
      found n j s =
          find_only members (host_port (host n) port) n j (told.own n j s)
            (λ p i. told.apart n p j i s)

      gone :
          Member
            (removed m.id)
            (remove_departed port desired_ips stable reachable members (members_ips members))
          → IsLeaving desired_ips stable reachable m
      gone h =
          let (ip, i, c) = of_remove_departed (members_ips members) (removed m.id) h in
          let (n, j, s, e) = of_members_ips members ip i in
          let (undesired, ready, same) =
            (change_for_found (host n) n m.id (found n j s) (told.named n j)).0
              (subst (λ y. Member (removed m.id) (change_for y)) (sym e) c) in
          subst (IsLeaving desired_ips stable reachable) (told.ids n m j k same)
            (s, undesired, ready)

      leaves :
          IsLeaving desired_ips stable reachable m
          → Member
              (removed m.id)
              (remove_departed port desired_ips stable reachable members (members_ips members))
      leaves (s, undesired, ready) =
          remove_departed_of (members_ips members) (host m) (removed m.id)
            (members_ips_of members m k s)
            ((change_for_found (host m) m m.id (found m k s) (told.named m k)).1
              (undesired, ready, refl))

has_prefix_refl : (s t : Text) → has_prefix (s ++ t) s ≡ true
unfolding has_prefix
has_prefix_refl [] t = refl
has_prefix_refl (c ∷ s) t = ground (arith, has_prefix_refl s t)

contains-prefix : (s t : Text) → has_prefix s t ≡ true → contains s t ≡ true
unfolding contains
contains-prefix [] t h = h
contains-prefix (c ∷ s) t h = rw h refl

contains-append_left : (a s t : Text) → contains s t ≡ true → contains (a ++ s) t ≡ true
unfolding contains
contains-append_left [] s t h = h
contains-append_left (c ∷ a) s t h = let rest = contains-append_left a s t h in ground (arith, rest)

-- The URL of a longer address shows the shorter one.
shows_suffix :
    (cfg : Config) (port : ℤ) (p ip : Text)
    → contains (etcd_url cfg (p ++ ip) port) (host_port ip port) ≡ true
unfolding etcd_url
shows_suffix cfg port p ip = contains-append_left (etcd_protocol cfg) _ (host_port ip port) (
    contains-append_left (codes "://") _ (host_port ip port) (
      subst (λ t. contains t (host_port ip port) ≡ true)
        (sym (append_assoc p ip (b':' ∷ itoa port)))
        (contains-append_left p (host_port ip port) (host_port ip port) (
          contains-prefix (host_port ip port) (host_port ip port) (
            subst (λ t. has_prefix t (host_port ip port) ≡ true) (append-nil (host_port ip port))
              (has_prefix_refl (host_port ip port) []))))))

-- A member listed first is removed in the place of another one, whose address has left, where its
-- own address ends in that one's text, whether or not its own is desired; it has an identifier, and
-- either the desired nodes are stable or the address that has left does not answer.
pub remove_departed-shadow :
    (cfg : Config) (port : ℤ) (p ip : Text) (desired_ips : List Text) (stable : Bool)
    (reachable : Text → Bool) (m : EtcdMember) (members : List EtcdMember) (ips : List Text)
    → m.client_urls ≡ etcd_url cfg (p ++ ip) port
    → m.id ≢ []
    → Member ip ips
    → contains_string desired_ips ip ≡ false
    → (stable ≡ true) ⊎ (reachable ip ≡ false)
    → Member (removed m.id) (remove_departed port desired_ips stable reachable (m ∷ members) ips)
unfolding find_by_client_ip
remove_departed-shadow cfg port p ip desired_ips stable reachable m members ips url named k u r =
    remove_departed_of port desired_ips stable reachable (m ∷ members) ips ip (removed m.id) k (
      (change_for_found port desired_ips stable reachable (m ∷ members) ip m m.id
          (rw (url, shows_suffix cfg port p ip) refl) named).1
        (u, r, refl))
