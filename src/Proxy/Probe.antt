-- ===== src/Proxy/Probe.antt =====
-- `probePrimary`: one goroutine for each candidate asks for its role, and they end in any order.
use flux_pg_cluster.Base.{
  ◌≡◌, refl, sym, ◌∙◌, subst, ◌⊎◌, inl, inr, true, false, Option, List, [], ◌∷◌, ◌++◌, All, Member,
  Member-append_right, Bool-cases, if◌then◌else◌,
}
use flux_pg_cluster.Patroni.{Network, Role}
use flux_pg_cluster.Config.{Config}
use flux_pg_cluster.Config.File.{load_cluster_env}
use flux_pg_cluster.Proxy.{is_primary, new_patroni_probe_clients, check_patroni_role}
use flux_pg_cluster.Topology.{candidate_ips}
use flux_pg_cluster.Text.{Text}

-- What one call of `probePrimary` asks: the candidates, and the role that each answers.
pub record Round : Type 0 where
  pub candidates : List Text
  pub role : Text → Role

-- The questions of `probePrimary`, on a copy of the settings that /etc/cluster_env refreshes.
unfoldable pub round_of : Config → Network × Option Text → Round
round_of cfg (net, cluster_env) =
    let probe_cfg = (load_cluster_env cluster_env cfg).0 in
    record {
      candidates = candidate_ips probe_cfg;
      role = check_patroni_role net probe_cfg (new_patroni_probe_clients probe_cfg);
    }

-- A goroutine ends: its candidate is no longer waited for, and is `found` if it is a primary.
abbrev pub after_end : (Text → Role) → Text → Text → Text
after_end role ip found = if is_primary (role ip) then ip else found

-- `Ends role ips found last`: while the candidates `ips` are waited for and `found` is stored, the
-- goroutines can end such that `last` is stored.
pub data Ends (role : Text → Role) : List Text → Text → Text → Type 0 where
  all_done : (found : Text) → Ends role [] found found
  one_ends :
      (before : List Text) (ip : Text) (after : List Text) (found last : Text)
      → Ends role (before ++ after) (after_end role ip found) last
      → Ends role (before ++ ip ∷ after) found last

-- The candidates in the order of the list.
unfoldable pub in_order : (Text → Role) → List Text → Text → Text
in_order role [] found = found
in_order role (ip ∷ ips) found = in_order role ips (after_end role ip found)

-- The goroutines can always end, for one in the order of the list.
pub in_order-Ends :
    (role : Text → Role) (ips : List Text) (found : Text)
    → Ends role ips found (in_order role ips found)
unfolding in_order
in_order-Ends role [] found = all_done found
in_order-Ends role (ip ∷ ips) found =
    one_ends [] ip ips found _ (in_order-Ends role ips (after_end role ip found))

abbrev pub IsPrimary : (Text → Role) → Text → Type 0
IsPrimary role ip = is_primary (role ip) ≡ true

-- What is found at the end: a candidate that is a primary, or nothing new where none is.
abbrev pub Outcome : (Text → Role) → List Text → Text → Text → Type 0
Outcome role ips found last =
    (Member last ips × IsPrimary role last)
    ⊎ ((last ≡ found) × All (λ ip. is_primary (role ip) ≡ false) ips)

All-insert :
    {A : Type 0} (P : A → Type 0) (xs : List A) (x : A) (ys : List A)
    → P x
    → All P (xs ++ ys)
    → All P (xs ++ x ∷ ys)
All-insert P [] x ys p h = (p, h)
All-insert P (z ∷ xs) x ys p h = (h.0, All-insert P xs x ys p h.1)

Member-insert :
    {A : Type 0} (y : A) (xs : List A) (x : A) (ys : List A)
    → Member y (xs ++ ys)
    → Member y (xs ++ x ∷ ys)
Member-insert y [] x ys m = inr m
Member-insert y (z ∷ xs) x ys (inl e) = inl e
Member-insert y (z ∷ xs) x ys (inr m) = inr (Member-insert y xs x ys m)

pub Ends-Outcome :
    (role : Text → Role) {ips : List Text} {found last : Text}
    → Ends role ips found last
    → Outcome role ips found last
Ends-Outcome role (all_done found) = inr (refl, tt)
Ends-Outcome role (one_ends before ip after found last e) = elim (Ends-Outcome role e) [
  | inl (m, p) ↦ inl (Member-insert last before ip after m, p)
  | inr (same, others) ↦ elim (Bool-cases (is_primary (role ip))) [
    | inl chosen ↦
        let k : last ≡ ip = same ∙ rw chosen refl in
        inl (
          subst (λ l. Member l (before ++ ip ∷ after)) (sym k)
              (Member-append_right ip before (ip ∷ after) (inl refl)),
          subst (IsPrimary role) (sym k) chosen,
        )
    | inr other ↦ inr (
      same ∙ rw other refl,
      All-insert (λ x. is_primary (role x) ≡ false) before ip after other others,
    )
  ]
]
