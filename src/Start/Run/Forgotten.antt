-- ===== src/Start/Run/Forgotten.antt =====
-- The fast check of runEtcdStart: the first peer that answers with members has forgotten this node.
use flux_pg_cluster.Base.{
  ◌≡◌, ◌≢◌, ◌↔◌, ◌⊎◌, refl, sym, ap, subst, inl, inr, Bool, false, Option, none, some, List, [],
  ◌∷◌, ◌++◌, All, Option-cases, arith,
}
use flux_pg_cluster.Etcd.{Member, find_by_name}
use flux_pg_cluster.Start.Run.{is_some, fast_check}
use flux_pg_cluster.Text.{Text}
use flux_pg_cluster.Text.Laws.{equal_iff}

-- A peer that does not tell of any member.
abbrev pub IsMute : (Text → Option (List Member)) → Text → Type 0
IsMute members ip = (members ip ≡ none) ⊎ (members ip ≡ some [])

-- The first of the peers that tells of members, all the ones before being mute, tells of none with
-- the name.
pub record IsForgotten (members : Text → Option (List Member)) (name : Text) (ips : List Text)
    : Type 0 where
  pub mute : List Text
  pub peer : Text
  pub later : List Text
  pub order : ips ≡ mute ++ peer ∷ later
  pub silent : All (IsMute members) mute
  pub told : List Member
  pub tells : members peer ≡ some told
  pub some_told : told ≢ []
  pub unnamed : All (λ m. m.name ≢ name) told

find_by_name-none_iff :
    (ms : List Member) (name : Text)
    → (is_some (find_by_name ms name) ≡ false) ↔ All (λ m. m.name ≢ name) ms
unfolding find_by_name
find_by_name-none_iff [] name = ground arith
find_by_name-none_iff (m ∷ ms) name =
    let rest = find_by_name-none_iff ms name in ground (arith, rest, equal_iff m.name name)

module _ (members : Text → Option (List Member)) (name : Text) where
  IsForgotten-after :
      (ip : Text) (ips : List Text)
      → IsMute members ip
      → IsForgotten members name ips
      → IsForgotten members name (ip ∷ ips)
  IsForgotten-after ip ips h f = record {
    mute = ip ∷ f.mute;
    peer = f.peer;
    later = f.later;
    order = ap (◌∷◌ ip) f.order;
    silent = (h, f.silent);
    told = f.told;
    tells = f.tells;
    some_told = f.some_told;
    unnamed = f.unnamed;
  }

  fast_check-IsForgotten :
      (ips : List Text) → fast_check members name ips ≡ some false → IsForgotten members name ips
  unfolding fast_check
  fast_check-IsForgotten [] e = cc e
  fast_check-IsForgotten (ip ∷ ips) e = elim (Option-cases (members ip)) [
    | inl silent ↦
        IsForgotten-after ip ips (inl silent)
          (fast_check-IsForgotten ips (rw (fast_check, silent) at e))
    | inr ([], empty) ↦
        IsForgotten-after ip ips (inr empty)
          (fast_check-IsForgotten ips (rw (fast_check, empty) at e))
    | inr (m ∷ ms, tells) ↦ record {
      mute = [];
      peer = ip;
      later = ips;
      order = refl;
      silent = tt;
      told = m ∷ ms;
      tells = tells;
      some_told = λ n. cc n;
      unnamed = (find_by_name-none_iff (m ∷ ms) name).0 (some_eq (rw (fast_check, tells) at e));
    }
  ]
    where
      some_eq : {a b : Bool} → some a ≡ some b → a ≡ b
      some_eq h = cc h

  fast_check-after :
      (mute : List Text) (peer : Text) (later : List Text) (told : List Member)
      → All (IsMute members) mute
      → members peer ≡ some told
      → told ≢ []
      → All (λ m. m.name ≢ name) told
      → fast_check members name (mute ++ peer ∷ later) ≡ some false
  unfolding fast_check
  fast_check-after [] peer later [] h t n u = absurd (n refl)
  fast_check-after [] peer later (m ∷ ms) h t n u =
      rw t (ap some ((find_by_name-none_iff (m ∷ ms) name).1 u))
  fast_check-after (ip ∷ mute) peer later told (inl silent, h) t n u =
      rw silent (fast_check-after mute peer later told h t n u)
  fast_check-after (ip ∷ mute) peer later told (inr empty, h) t n u =
      rw empty (fast_check-after mute peer later told h t n u)

  pub fast_check_iff :
      (ips : List Text) → (fast_check members name ips ≡ some false) ↔ IsForgotten members name ips
  fast_check_iff ips = (
    fast_check-IsForgotten ips,
    λ f.
        subst (λ l. fast_check members name l ≡ some false) (sym f.order)
          (fast_check-after f.mute f.peer f.later f.told f.silent f.tells f.some_told f.unnamed),
  )
