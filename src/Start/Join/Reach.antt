-- ===== src/Start/Join/Reach.antt =====
-- When `tryJoinExisting` reports that no peer is reachable, and what it leaves alone.
use flux_pg_cluster.Base.{
  ℕ, zero, suc, ◌≡◌, ◌≢◌, ◌↔◌, refl, sym, ap, ◌∙◌, ◌⊎◌, inl, inr, Bool, true, false, Option, none,
  some, List, [], ◌∷◌, All, arith, Option-cases,
}
use flux_pg_cluster.Base.Int.{ℤ}
use flux_pg_cluster.Config.{Config}
use flux_pg_cluster.Etcd.{Member}
use flux_pg_cluster.Start.Join.{
  Peers, Change, Round, joined, unjoined, join_via, own_entry, then_round, join_round,
  no_peers_reachable, JoinEnd, after_round, refresh, join_attempts, max_attempts, try_join_existing,
}
use flux_pg_cluster.Text.{Text}

-- No peer of the attempt answers with a list of members.
abbrev pub IsSilent : Peers → ℕ → List Text → Type 0
IsSilent w attempt = All (λ ip. w.members attempt ip ≡ none)

-- No peer answers at any of `left` attempts from `attempt` on, each with the addresses that it
-- reads.
abbrev pub AllSilent : Peers → ℕ → ℕ → Config → List Text → Type 0
AllSilent w zero attempt cfg ips = Unit
AllSilent w (suc left) attempt cfg ips =
    let (cfg', ips') = refresh (w.reload attempt cfg) ips in
    IsSilent w attempt ips' × AllSilent w left (suc attempt) cfg' ips'

then_round-reached :
    (v : List Change × Option Round) (rest : List Change × Round)
    → v.1 ≢ some (unjoined false)
    → rest.1 ≢ unjoined false
    → (then_round v rest).1 ≢ unjoined false
then_round-reached (changes, none) (later, round) h k e = k e
then_round-reached (changes, some round) rest h k e = h (ap some e)

after_round-no_peers :
    (cfg : Config) (v : List Change × Round) (next : Bool → JoinEnd)
    → (after_round cfg v next).result ≡ no_peers_reachable
    → ((v.1 ≡ unjoined true) × ((next true).result ≡ no_peers_reachable))
      ⊎ ((v.1 ≡ unjoined false) × ((next false).result ≡ no_peers_reachable))
after_round-no_peers cfg (changes, joined rebuilt) next e = cc
after_round-no_peers cfg (changes, unjoined true) next e = inl (refl, e)
after_round-no_peers cfg (changes, unjoined false) next e = inr (refl, e)

module _ (w : Peers) (force_rejoin : Bool) where
  join_via-reached :
      (cfg : Config) (attempt : ℕ) (ip : Text) (entry : Option Member)
      → (join_via w cfg force_rejoin attempt ip entry).1 ≢ some (unjoined false)
  unfolding join_via
  join_via-reached cfg attempt ip none e = ground arith
  join_via-reached cfg attempt ip (some entry) e = ground arith

  join_round-none :
      (cfg : Config) (attempt : ℕ) (reachable : Bool) (ip : Text) (ips : List Text)
      → w.members attempt ip ≡ none
      → join_round w cfg force_rejoin attempt reachable (ip ∷ ips)
        ≡ join_round w cfg force_rejoin attempt reachable ips
  unfolding join_round
  join_round-none cfg attempt reachable ip ips e = rw (e, join_round) refl

  join_round-some :
      (cfg : Config) (attempt : ℕ) (reachable : Bool) (ip : Text) (ips : List Text)
      {members : List Member}
      → w.members attempt ip ≡ some members
      → join_round w cfg force_rejoin attempt reachable (ip ∷ ips)
        ≡ then_round
            (join_via w cfg force_rejoin attempt ip (own_entry cfg members))
            (join_round w cfg force_rejoin attempt true ips)
  unfolding join_round
  join_round-some cfg attempt reachable ip ips e = rw (e, join_round) refl

  join_round-silent :
      (cfg : Config) (attempt : ℕ) (reachable : Bool) (ips : List Text)
      → IsSilent w attempt ips
      → join_round w cfg force_rejoin attempt reachable ips ≡ ([], unjoined reachable)
  unfolding join_round
  join_round-silent cfg attempt reachable [] h = refl
  join_round-silent cfg attempt reachable (ip ∷ ips) h =
      let rest = join_round-silent cfg attempt reachable ips h.1 in rw (h.0, join_round) rest

  join_round-reached :
      (cfg : Config) (attempt : ℕ) (ips : List Text)
      → (join_round w cfg force_rejoin attempt true ips).1 ≢ unjoined false
  unfolding join_round
  join_round-reached cfg attempt [] e = cc
  join_round-reached cfg attempt (ip ∷ ips) e =
      let rest = join_round-reached cfg attempt ips in
      elim (Option-cases (w.members attempt ip)) [
        | inl silent ↦
            rest (sym (ap (λ p. p.1) (join_round-none cfg attempt true ip ips silent)) ∙ e)
        | inr (members, answers) ↦
            then_round-reached (join_via w cfg force_rejoin attempt ip (own_entry cfg members))
              (join_round w cfg force_rejoin attempt true ips)
              (join_via-reached cfg attempt ip (own_entry cfg members)) rest
              (sym (ap (λ p. p.1) (join_round-some cfg attempt true ip ips answers)) ∙ e)
      ]

  join_round-unreached :
      (cfg : Config) (attempt : ℕ) (ips : List Text)
      → (join_round w cfg force_rejoin attempt false ips).1 ≡ unjoined false
      → IsSilent w attempt ips
  unfolding join_round
  join_round-unreached cfg attempt [] e = tt
  join_round-unreached cfg attempt (ip ∷ ips) e = elim (Option-cases (w.members attempt ip)) [
    | inl silent ↦ (
      silent,
      join_round-unreached cfg attempt ips
          (sym (ap (λ p. p.1) (join_round-none cfg attempt false ip ips silent)) ∙ e),
    )
    | inr (members, answers) ↦ absurd (
        then_round-reached (join_via w cfg force_rejoin attempt ip (own_entry cfg members))
          (join_round w cfg force_rejoin attempt true ips)
          (join_via-reached cfg attempt ip (own_entry cfg members))
          (join_round-reached cfg attempt ips)
          (sym (ap (λ p. p.1) (join_round-some cfg attempt false ip ips answers)) ∙ e))
  ]

  attempts_silent :
      (left attempt : ℕ) (cfg : Config) (ips : List Text)
      → AllSilent w left attempt cfg ips
      → (join_attempts w force_rejoin left attempt false cfg ips).result ≡ no_peers_reachable
  unfolding join_attempts
  attempts_silent zero attempt cfg ips h = refl
  attempts_silent (suc left) attempt cfg ips h =
      let (next, ips') = refresh (w.reload attempt cfg) ips in
      let rest = attempts_silent left (suc attempt) next ips' h.1 in
      ap
        (λ v.
          (after_round next v
            (λ reached. join_attempts w force_rejoin left (suc attempt) reached next ips')).result)
        (join_round-silent next attempt false ips' h.0)
      ∙ rest

  attempts_reached :
      (left attempt : ℕ) (cfg : Config) (ips : List Text)
      → (join_attempts w force_rejoin left attempt true cfg ips).result ≢ no_peers_reachable
  unfolding join_attempts
  attempts_reached zero attempt cfg ips e = cc
  attempts_reached (suc left) attempt cfg ips e =
      let (next, ips') = refresh (w.reload attempt cfg) ips in
      elim (after_round-no_peers next (join_round w next force_rejoin attempt true ips')
        (λ reached. join_attempts w force_rejoin left (suc attempt) reached next ips') e) [
          | inl (r, later) ↦ attempts_reached left (suc attempt) next ips' later
          | inr (r, later) ↦ join_round-reached next attempt ips' r
        ]

  attempts_unreached :
      (left attempt : ℕ) (cfg : Config) (ips : List Text)
      → (join_attempts w force_rejoin left attempt false cfg ips).result ≡ no_peers_reachable
      → AllSilent w left attempt cfg ips
  unfolding join_attempts
  attempts_unreached zero attempt cfg ips e = tt
  attempts_unreached (suc left) attempt cfg ips e =
      let (next, ips') = refresh (w.reload attempt cfg) ips in
      elim (after_round-no_peers next (join_round w next force_rejoin attempt false ips')
        (λ reached. join_attempts w force_rejoin left (suc attempt) reached next ips') e) [
          | inl (r, later) ↦ absurd (attempts_reached left (suc attempt) next ips' later)
          | inr (r, later) ↦ (
            join_round-unreached next attempt ips' r,
            attempts_unreached left (suc attempt) next ips' later,
          )
        ]

-- The error "no peers reachable", on which a node may go on to found a cluster, is returned
-- exactly when no peer, at any attempt and with the addresses read for that attempt, has
-- answered with a list of members.
pub try_join_existing-no_peers_iff :
    (w : Peers) (cfg : Config) (other_ips : List Text) (force_rejoin : Bool) (max_retries : ℤ)
    → ((try_join_existing w cfg other_ips force_rejoin max_retries).result ≡ no_peers_reachable)
      ↔ AllSilent w (max_attempts max_retries) 1 cfg other_ips
unfolding try_join_existing
try_join_existing-no_peers_iff w cfg other_ips force_rejoin max_retries =
    let n = max_attempts max_retries in
    (
      attempts_unreached w force_rejoin n 1 cfg other_ips,
      attempts_silent w force_rejoin n 1 cfg other_ips,
    )
