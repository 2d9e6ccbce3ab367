-- ===== src/Identity/Recovery/Select.antt =====
-- `selectMostAdvancedReplica`: the replica that is returned is behind no other.
use flux_pg_cluster.Base.{
  ℕ, ◌<◌, ◌≡◌, ◌≢◌, refl, sym, ap, ◌∙◌, subst, ◌⊎◌, inl, inr, true, false, Option, none, some, List,
  [], ◌∷◌, All, Member, arith,
}
use flux_pg_cluster.Identity.{PeerIdentityResult, granted, bind-eq-granted}
use flux_pg_cluster.Identity.Recovery.{
  Selection, consider_replica, select_loop, select_most_advanced_replica, zero_result,
}
use flux_pg_cluster.Postgres.{parse_postgres_lsn, no_position}
use flux_pg_cluster.Text.{less}
use flux_pg_cluster.Text.Laws.{less_trans, less_irrefl}

abbrev pub lsn_of : PeerIdentityResult → Option ℕ
lsn_of r = parse_postgres_lsn r.identity.postgres_wal_position

-- The selection's position is that of the selected replica.
pub record HasPosition (s : Selection) : Type 0 where
  pub same_timeline : s.selected.identity.postgres_timeline ≡ s.best.timeline
  pub timeline_ne_zero : s.best.timeline ≢ 0
  pub parsed : lsn_of s.selected ≡ some s.best.lsn
  pub lsn_ne_zero : s.best.lsn ≢ 0

-- The selection is at the replica's position or ahead of it on the same timeline, and a tie goes
-- to the smaller name.
pub record IsAhead (s : Selection) (r : PeerIdentityResult) : Type 0 where
  pub lsn : ℕ
  pub parsed : lsn_of r ≡ some lsn
  pub same_timeline : r.identity.postgres_timeline ≡ s.best.timeline
  pub order :
      (lsn < s.best.lsn)
      ⊎ ((lsn ≡ s.best.lsn) × (less r.identity.node_name s.selected.identity.node_name ≡ false))

abbrev taken : PeerIdentityResult → ℕ → Selection
taken r lsn = record {
  selected = r;
  best = record { timeline = r.identity.postgres_timeline; lsn = lsn };
}

-- The two ways through the loop's body.
abbrev Took : PeerIdentityResult → Selection → Selection → ℕ → Type 0
Took r s t lsn =
    (t ≡ taken r lsn)
    × ((s.best.timeline ≡ 0)
        ⊎ ((s.best.lsn < lsn)
            ⊎ ((lsn ≡ s.best.lsn)
                × (less r.identity.node_name s.selected.identity.node_name ≡ true))))

abbrev Kept : PeerIdentityResult → Selection → Selection → ℕ → Type 0
Kept r s t lsn =
    (t ≡ s)
    × (s.best.timeline ≢ 0)
    × ((lsn < s.best.lsn)
        ⊎ ((lsn ≡ s.best.lsn) × (less r.identity.node_name s.selected.identity.node_name ≡ false)))

record Stepped (r : PeerIdentityResult) (s t : Selection) : Type 0 where
  lsn : ℕ
  parsed : lsn_of r ≡ some lsn
  timeline_ne_zero : r.identity.postgres_timeline ≢ 0
  lsn_ne_zero : lsn ≢ 0
  same_timeline : s.best.timeline ≢ 0 → r.identity.postgres_timeline ≡ s.best.timeline
  way : Took r s t lsn ⊎ Kept r s t lsn

consider_replica-Stepped :
    (r : PeerIdentityResult) (s : Selection) {t : Selection} (o : Option ℕ)
    → lsn_of r ≡ o
    → consider_replica r s o ≡ granted t
    → Stepped r s t
unfolding consider_replica
consider_replica-Stepped r s none p e = cc
consider_replica-Stepped r s (some l) p e = record {
  lsn = l;
  parsed = p;
  timeline_ne_zero = ground arith;
  lsn_ne_zero = ground arith;
  same_timeline = ground arith;
  way = ground arith;
}

taken-HasPosition :
    (r : PeerIdentityResult) (s t : Selection) (h : Stepped r s t) → HasPosition (taken r h.lsn)
taken-HasPosition r s t h = record {
  same_timeline = refl;
  timeline_ne_zero = h.timeline_ne_zero;
  parsed = h.parsed;
  lsn_ne_zero = h.lsn_ne_zero;
}

taken-IsAhead :
    (r : PeerIdentityResult) (s t : Selection) (h : Stepped r s t) → IsAhead (taken r h.lsn) r
taken-IsAhead r s t h = record {
  lsn = h.lsn;
  parsed = h.parsed;
  same_timeline = refl;
  order = inr (refl, less_irrefl r.identity.node_name);
}

-- A replica that the selection is ahead of is also behind the one that replaces it.
taken_keeps :
    (r q : PeerIdentityResult) (s : Selection) (lsn : ℕ)
    → r.identity.postgres_timeline ≡ s.best.timeline
    → (s.best.lsn < lsn)
      ⊎ ((lsn ≡ s.best.lsn) × (less r.identity.node_name s.selected.identity.node_name ≡ true))
    → IsAhead s q
    → IsAhead (taken r lsn) q
taken_keeps r q s lsn t further a = record {
  lsn = a.lsn;
  parsed = a.parsed;
  same_timeline = a.same_timeline ∙ sym t;
  order =
      ground
        (arith, less_trans q.identity.node_name r.identity.node_name s.selected.identity.node_name);
}

-- What one round keeps of a selection that has a position.
record RoundKeeps (r : PeerIdentityResult) (s t : Selection) : Type 0 where
  position : HasPosition t
  from : (t.selected ≡ s.selected) ⊎ (r ≡ t.selected)
  ahead : IsAhead t r
  keeps : (q : PeerIdentityResult) → IsAhead s q → IsAhead t q

round_lem :
    (r : PeerIdentityResult) (s t : Selection) → Stepped r s t → HasPosition s → RoundKeeps r s t
round_lem r s t h p = elim h.way [
  | inl (e, further) ↦ subst (RoundKeeps r s) (sym e) (record {
    position = taken-HasPosition r s t h;
    from = inr refl;
    ahead = taken-IsAhead r s t h;
    keeps = λ q a.
        taken_keeps r q s h.lsn (h.same_timeline p.timeline_ne_zero)
          (elim further [ inl z ↦ absurd (p.timeline_ne_zero z) | inr f ↦ f ]) a;
  })
  | inr (e, n, behind) ↦ subst (RoundKeeps r s) (sym e) (record {
    position = p;
    from = inl refl;
    ahead = record {
      lsn = h.lsn;
      parsed = h.parsed;
      same_timeline = h.same_timeline n;
      order = behind;
    };
    keeps = λ q a. a;
  })
]

-- What the whole loop keeps.
record LoopKeeps (rs : List PeerIdentityResult) (s t : Selection) : Type 0 where
  position : HasPosition t
  from : (t.selected ≡ s.selected) ⊎ Member t.selected rs
  ahead : All (IsAhead t) rs
  keeps : (q : PeerIdentityResult) → IsAhead s q → IsAhead t q

select_loop-LoopKeeps :
    (rs : List PeerIdentityResult) (s : Selection) {t : Selection}
    → select_loop rs s ≡ granted t
    → HasPosition s
    → LoopKeeps rs s t
unfolding select_loop
select_loop-LoopKeeps [] s e p =
    subst (LoopKeeps [] s) (cc)
      (record { position = p; from = inl refl; ahead = tt; keeps = λ q a. a })
select_loop-LoopKeeps (r ∷ rs) s e p =
    let (u, step, later) =
      bind-eq-granted (consider_replica r s (lsn_of r)) (λ t. select_loop rs t) e in
    let k = round_lem r s u (consider_replica-Stepped r s (lsn_of r) refl step) p in
    let l = select_loop-LoopKeeps rs u later k.position in
    record {
      position = l.position;
      from = elim l.from [
        | inl same ↦ elim k.from [
          | inl old ↦ inl (same ∙ old)
          | inr new ↦ inr (inl (new ∙ sym same))
        ]
        | inr m ↦ inr (inr m)
      ];
      ahead = (l.keeps r k.ahead, l.ahead);
      keeps = λ q a. l.keeps q (k.keeps q a);
    }

-- The winner stands in the list, and is ahead of every replica in it.
pub record Wins (rs : List PeerIdentityResult) (t : Selection) : Type 0 where
  pub position : HasPosition t
  pub member : Member t.selected rs
  pub ahead : All (IsAhead t) rs

abbrev zero_selection : Selection
zero_selection = record { selected = zero_result; best = no_position }

-- The first replica replaces the zero selection.
first_round :
    (r : PeerIdentityResult) (rs : List PeerIdentityResult) (u : Selection) {t : Selection}
    → Stepped r zero_selection u
    → select_loop rs u ≡ granted t
    → Wins (r ∷ rs) t
first_round r rs u h later = elim h.way [
  | inl (e, _) ↦
      let l =
        select_loop-LoopKeeps rs (taken r h.lsn) (ap (select_loop rs) (sym e) ∙ later)
          (taken-HasPosition r zero_selection u h) in
      record {
        position = l.position;
        member = elim l.from [ inl same ↦ inl (sym same) | inr m ↦ inr m ];
        ahead = (l.keeps r (taken-IsAhead r zero_selection u h), l.ahead);
      }
  | inr (_, n, _) ↦ absurd (n refl)
]

-- Where the selection succeeds, every replica has a readable position on one timeline, and the
-- selected one has the greatest LSN, with ties broken by the smaller name.
pub select_most_advanced_replica-Wins :
    (rs : List PeerIdentityResult) {t : Selection}
    → select_most_advanced_replica rs ≡ granted t
    → Wins rs t
unfolding select_most_advanced_replica select_loop
select_most_advanced_replica-Wins [] e = cc
select_most_advanced_replica-Wins (r ∷ rs) e =
    let (u, step, later) =
      bind-eq-granted (consider_replica r zero_selection (lsn_of r)) (λ t. select_loop rs t) e in
    first_round r rs u (consider_replica-Stepped r zero_selection (lsn_of r) refl step) later
