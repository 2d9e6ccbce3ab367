-- ===== src/Tests/Members.antt =====
-- Tests of the daemon's changes to the members, the leader's key, the roles and Patroni's settings.
use flux_pg_cluster.Base.{
  ◌≡◌, ◌≢◌, ◌↔◌, refl, sym, ap, ◌∙◌, subst, inl, inr, true, false, List, [], ◌∷◌, ◌++◌, Member,
  arith,
}
use flux_pg_cluster.Base.Int.{pos}
use flux_pg_cluster.Config.{Config}
use flux_pg_cluster.Daemon.Members.{
  removed, promoted, members_ips, remove_departed, remove_ghosts, promote_learners,
}
use flux_pg_cluster.Daemon.Members.Departed.{
  host, Shows, IsTold, IsLeaving, remove_departed_iff, remove_departed-shadow,
}
use flux_pg_cluster.Etcd.{Member as EtcdMember}
use flux_pg_cluster.Tests.Cluster.{config_a, ip_a, ip_b, name_a, name_b}
use flux_pg_cluster.Text.{Text, codes, contains, contains_string}
use flux_pg_cluster.Topology.{etcd_url, host_port}

abbrev member_of : Text → Text → Text → EtcdMember
member_of id name url = record {
  id = id;
  name = name;
  peer_urls = [];
  client_urls = url;
  is_learner = false;
  unstarted = false;
}

abbrev pub member_a : EtcdMember
member_a = member_of (codes "a") name_a (codes "http://10.0.0.1:2379")

abbrev pub member_b : EtcdMember
member_b = member_of (codes "b") name_b (codes "http://10.0.0.2:2379")

-- The second node has left, and does not answer.
removes_b :
    remove_departed
      (pos 2379)
      (ip_a ∷ [])
      false
      (λ ip. false)
      (member_a ∷ member_b ∷ [])
      (members_ips (member_a ∷ member_b ∷ []))
    ≡ removed (codes "b") ∷ []
unfolding remove_departed members_ips flux_pg_cluster.Daemon.Members.member_ip
    flux_pg_cluster.Topology.extract_host_from_url flux_pg_cluster.Daemon.Members.departed_change
    flux_pg_cluster.Text.contains_string flux_pg_cluster.Etcd.find_by_client_ip
    flux_pg_cluster.Text.contains flux_pg_cluster.Number.itoa
removes_b = refl

abbrev both : List EtcdMember
both = member_a ∷ member_b ∷ []

abbrev InBoth : EtcdMember → Type 0
InBoth m = Member m both

a-shows : contains member_a.client_urls (host_port (host member_a) (pos 2379)) ≡ true
unfolding contains flux_pg_cluster.Topology.extract_host_from_url flux_pg_cluster.Number.itoa
a-shows = refl

b-shows : contains member_b.client_urls (host_port (host member_b) (pos 2379)) ≡ true
unfolding contains flux_pg_cluster.Topology.extract_host_from_url flux_pg_cluster.Number.itoa
b-shows = refl

b-hides : contains member_b.client_urls (host_port (host member_a) (pos 2379)) ≡ false
unfolding contains flux_pg_cluster.Topology.extract_host_from_url
b-hides = refl

a-hides : contains member_a.client_urls (host_port (host member_b) (pos 2379)) ≡ false
unfolding contains flux_pg_cluster.Topology.extract_host_from_url
a-hides = refl

own_lem : (m : EtcdMember) → InBoth m → Shows (pos 2379) m m
own_lem m (inl e) = subst (λ k. Shows (pos 2379) k k) e a-shows
own_lem m (inr (inl e)) = subst (λ k. Shows (pos 2379) k k) e b-shows
own_lem m (inr (inr k)) = absurd k

apart_lem : (m n : EtcdMember) → InBoth m → InBoth n → Shows (pos 2379) m n → n ≡ m
apart_lem m n (inl e) (inl f) s = sym f ∙ e
apart_lem m n (inl e) (inr (inl f)) s = absurd (
    cc (
      b-hides,
      subst (λ k. Shows (pos 2379) member_a k) (sym f)
          (subst (λ k. Shows (pos 2379) k n) (sym e) s),
    ))
apart_lem m n (inr (inl e)) (inl f) s = absurd (
    cc (
      a-hides,
      subst (λ k. Shows (pos 2379) member_b k) (sym f)
          (subst (λ k. Shows (pos 2379) k n) (sym e) s),
    ))
apart_lem m n (inr (inl e)) (inr (inl f)) s = sym f ∙ e
apart_lem m n (inl e) (inr (inr k)) s = absurd k
apart_lem m n (inr (inl e)) (inr (inr k)) s = absurd k
apart_lem m n (inr (inr k)) j s = absurd k

id_differs : codes "a" ≢ codes "b"
id_differs e = ground arith

ids_lem : (m n : EtcdMember) → InBoth m → InBoth n → m.id ≡ n.id → m ≡ n
ids_lem m n (inl e) (inl f) i = sym e ∙ f
ids_lem m n (inl e) (inr (inl f)) i =
    absurd (id_differs (ap (λ k. k.id) e ∙ i ∙ sym (ap (λ k. k.id) f)))
ids_lem m n (inr (inl e)) (inl f) i =
    absurd (id_differs (sym (ap (λ k. k.id) e ∙ i ∙ sym (ap (λ k. k.id) f))))
ids_lem m n (inr (inl e)) (inr (inl f)) i = sym e ∙ f
ids_lem m n (inl e) (inr (inr k)) i = absurd k
ids_lem m n (inr (inl e)) (inr (inr k)) i = absurd k
ids_lem m n (inr (inr k)) j i = absurd k

named_lem : (m : EtcdMember) → InBoth m → m.id ≢ []
named_lem m (inl e) i = cc
named_lem m (inr (inl e)) i = cc (ap (λ k. k.id) e ∙ i)
named_lem m (inr (inr k)) i = absurd k

both-IsTold : IsTold (pos 2379) both
both-IsTold = record {
  own = λ m k s. own_lem m k;
  apart = λ m n j k s e. apart_lem m n j k e;
  ids = ids_lem;
  named = named_lem;
}

remove_departed_iff_example :
    Member
      (removed (codes "b"))
      (remove_departed (pos 2379) (ip_a ∷ []) false (λ ip. false) both (members_ips both))
    ↔ IsLeaving (ip_a ∷ []) false (λ ip. false) member_b
remove_departed_iff_example =
    remove_departed_iff (pos 2379) (ip_a ∷ []) false (λ ip. false) both both-IsTold member_b
      (inr (inl refl))

-- The member at 110.0.0.2, which is desired, is removed in the place of the one at 10.0.0.2.
abbrev member_c : EtcdMember
member_c = member_of (codes "c") (codes "node-110-0-0-2") (codes "http://110.0.0.2:2379")

remove_departed-shadow_example : Member (removed (codes "c")) (
    remove_departed
      (pos 2379)
      (codes "110.0.0.2" ∷ [])
      true
      (λ ip. true)
      (member_c ∷ member_b ∷ [])
      (ip_b ∷ []))
unfolding etcd_url flux_pg_cluster.Config.etcd_protocol flux_pg_cluster.Number.itoa contains_string
remove_departed-shadow_example =
    remove_departed-shadow config_a (pos 2379) (codes "1") ip_b (codes "110.0.0.2" ∷ []) true
      (λ ip. true) member_c (member_b ∷ []) (ip_b ∷ []) c_url (λ e. cc e) (inl refl) b_undesired
      (inl refl)
  where
    c_url : member_c.client_urls ≡ etcd_url config_a (codes "1" ++ ip_b) (pos 2379)
    c_url = refl

    b_undesired : contains_string (codes "110.0.0.2" ∷ []) ip_b ≡ false
    b_undesired = refl

removes_c :
    remove_departed
      (pos 2379)
      (codes "110.0.0.2" ∷ [])
      true
      (λ ip. true)
      (member_c ∷ member_b ∷ [])
      (members_ips (member_c ∷ member_b ∷ []))
    ≡ removed (codes "c") ∷ []
unfolding remove_departed members_ips flux_pg_cluster.Daemon.Members.member_ip
    flux_pg_cluster.Topology.extract_host_from_url flux_pg_cluster.Daemon.Members.departed_change
    contains_string flux_pg_cluster.Etcd.find_by_client_ip contains flux_pg_cluster.Number.itoa
removes_c = refl
