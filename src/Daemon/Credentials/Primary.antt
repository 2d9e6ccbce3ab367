-- ===== src/Daemon/Credentials/Primary.antt =====
-- When the roles are changed.
use flux_pg_cluster.Base.{
  ◌≡◌, ◌≢◌, refl, sym, ◌⊎◌, inl, inr, Bool, true, false, Option, none, some, [], ◌∷◌, Member,
  Bool-cases, arith,
}
use flux_pg_cluster.Config.{Config}
use flux_pg_cluster.Daemon.Credentials.{
  Effect, ran_sql, wrote_marker, role_query, postgres_credential_sql, apply_credentials,
  reconcile_postgres_credentials,
}
use flux_pg_cluster.Text.{Text, codes, equal, trim_space}
use flux_pg_cluster.Text.Laws.{equal_iff}

-- The node is a primary that has not been reconciled in this container.
pub record IsDue (has_marker has_global : Bool) (psql : Text → Option Text) : Type 0 where
  pub unmarked : has_marker ≡ false
  pub global : has_global ≡ true
  pub answer : Text
  pub answered : psql role_query ≡ some answer
  pub primary : trim_space answer ≡ codes "primary"

-- What may be done beyond asking for the role.
abbrev pub IsApplied : Config → (Text → Option Text) → Effect → Type 0
IsApplied cfg psql e =
    (e ≡ ran_sql (postgres_credential_sql cfg))
    ⊎ ((e ≡ wrote_marker) × (psql (postgres_credential_sql cfg) ≢ none))

marked_lem :
    (e : Effect) (o : Option Text)
    → Member e (elim o [ none ↦ [] | some _ ↦ wrote_marker ∷ [] ])
    → (e ≡ wrote_marker) × (o ≢ none)
marked_lem e none m = absurd m
marked_lem e (some reply) m = (ground arith, λ k. cc k)

apply-IsApplied :
    (cfg : Config) (psql : Text → Option Text) (o : Option Text) (e : Effect)
    → Member e (apply_credentials cfg psql o)
    → (answer : Text) × (o ≡ some answer)
      × (trim_space answer ≡ codes "primary")
      × IsApplied cfg psql e
apply-IsApplied cfg psql none e m = absurd m
apply-IsApplied cfg psql (some out) e m =
    elim (Bool-cases (equal (trim_space out) (codes "primary"))) [
      | inl primary ↦ (
        out,
        refl,
        (equal_iff (trim_space out) (codes "primary")).0 primary,
        applied (rw primary at m),
      )
      | inr other ↦ absurd (rw other at m)
    ]
  where
    applied :
        Member e (
          ran_sql (postgres_credential_sql cfg)
          ∷ elim (psql (postgres_credential_sql cfg)) [ none ↦ [] | some _ ↦ wrote_marker ∷ [] ])
        → IsApplied cfg psql e
    applied (inl k) = inl (sym k)
    applied (inr k) = inr (marked_lem e (psql (postgres_credential_sql cfg)) k)

-- The roles are changed only on a node with data that calls itself a primary, once in the life of
-- its container: where no marker has been left; and the marker is left only where the statements
-- have succeeded.
pub reconcile_postgres_credentials-IsDue :
    (cfg : Config) (has_marker has_global : Bool) (psql : Text → Option Text) (e : Effect)
    → Member e (reconcile_postgres_credentials cfg has_marker has_global psql)
    → e ≢ ran_sql role_query
    → IsDue has_marker has_global psql × IsApplied cfg psql e
unfolding reconcile_postgres_credentials
reconcile_postgres_credentials-IsDue cfg true has_global psql e m n = absurd m
reconcile_postgres_credentials-IsDue cfg false false psql e m n = absurd m
reconcile_postgres_credentials-IsDue cfg false true psql e (inl k) n = absurd (n (sym k))
reconcile_postgres_credentials-IsDue cfg false true psql e (inr m) n =
    let (answer, answered, primary, applied) = apply-IsApplied cfg psql (psql role_query) e m in
    (
      record {
        unmarked = refl;
        global = refl;
        answer = answer;
        answered = answered;
        primary = primary;
      },
      applied,
    )
