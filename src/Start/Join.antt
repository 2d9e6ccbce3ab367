-- ===== src/Start/Join.antt =====
-- `tryJoinExisting`: registering with a live cluster. What etcd answers to this node at an attempt
-- through a peer is a function of the attempt and the peer's address.
pub mod Reach
use flux_pg_cluster.Base.{
  ℕ, zero, suc, ◌++◌, Bool, true, false, ◌&&◌, ◌||◌, Option, none, some, List, [], ◌∷◌,
  if◌then◌else◌,
}
use flux_pg_cluster.Base.Int.{ℤ, pos, negsuc}
use flux_pg_cluster.Config.{Config}
use flux_pg_cluster.Etcd.{Member, find_by_name, find_by_peer_url}
use flux_pg_cluster.Start.{my_peer_url, rebuild_initial_cluster}
use flux_pg_cluster.Text.{Text, is_empty}
use flux_pg_cluster.Topology.{other_ips_from_initial_cluster}

-- What `MemberAddLearner` answers; the second is an error whose text contains "too many learner
-- members".
pub data AddReply : Type 0 where
  added too_many_learners add_failed : AddReply

-- The surroundings of the loop, by attempt and address: `MemberList`, `MemberAddLearner`, and the
-- second `MemberList`, whose error is ignored and leaves no members; and what `LoadClusterEnv`
-- makes of the settings at an attempt, with whether it succeeds.
pub record Peers : Type 0 where
  pub members : ℕ → Text → Option (List Member)
  pub add : ℕ → Text → AddReply
  pub updated : ℕ → Text → List Member
  pub reload : ℕ → Config → Config × Bool

-- The calls that change the cluster, with the address of the peer they go through.
pub data Change : Type 0 where
  removed : Text → Text → Change
  added_learner : Text → Text → Text → Change

-- How the loop over the peers of one attempt ends: it returns "existing" with a rebuilt initial
-- cluster, or it goes on, with the loop's flag `anyReachable`.
pub data Round : Type 0 where
  joined : Text → Round
  unjoined : Bool → Round

-- `existing` in the source: the member that bears this node's name, or else its peer URL.
unfoldable pub own_entry : Config → List Member → Option Member
unfolding find_by_name find_by_peer_url
own_entry cfg members = elim (find_by_name members cfg.my_name) [
  | some m ↦ some m
  | none ↦ find_by_peer_url members (my_peer_url cfg)
]

-- `isGhost`
abbrev pub is_ghost : Member → Bool
is_ghost m = m.unstarted || is_empty m.name

-- What is done with one reachable peer: the changes, and `none` where the loop goes on to the
-- next peer.
abbrev pub after_add : Peers → Config → ℕ → Text → AddReply → Option Round
after_add w cfg attempt ip added =
    some (joined (rebuild_initial_cluster (w.updated attempt ip) cfg.my_name (my_peer_url cfg)))
after_add w cfg attempt ip too_many_learners = some (unjoined true)
after_add w cfg attempt ip add_failed = none

abbrev pub add_learner : Peers → Config → ℕ → Text → List Change × Option Round
add_learner w cfg attempt ip = (
  added_learner ip cfg.my_name (my_peer_url cfg) ∷ [],
  after_add w cfg attempt ip (w.add attempt ip),
)

unfoldable pub join_via :
    Peers → Config → Bool → ℕ → Text → Option Member → List Change × Option Round
join_via w cfg force_rejoin attempt ip none = add_learner w cfg attempt ip
join_via w cfg force_rejoin attempt ip (some entry) =
    if is_ghost entry || force_rejoin
    then (let (changes, round) = add_learner w cfg attempt ip in
        (removed ip entry.id ∷ changes, round))
    else ([], some (joined []))

abbrev pub then_round : List Change × Option Round → List Change × Round → List Change × Round
then_round (changes, some round) rest = (changes, round)
then_round (changes, none) (later, round) = (changes ++ later, round)

-- The loop over the peers.
unfoldable pub join_round : Peers → Config → Bool → ℕ → Bool → List Text → List Change × Round
join_round w cfg force_rejoin attempt reachable [] = ([], unjoined reachable)
join_round w cfg force_rejoin attempt reachable (ip ∷ ips) = elim (w.members attempt ip) [
  | none ↦ join_round w cfg force_rejoin attempt reachable ips
  | some members ↦
      then_round (join_via w cfg force_rejoin attempt ip (own_entry cfg members))
        (join_round w cfg force_rejoin attempt true ips)
]

-- What `tryJoinExisting` returns: "existing" with the rebuilt initial cluster, or one of the two
-- errors of internal/errors.
pub data JoinResult : Type 0 where
  existing_in : Text → JoinResult
  split_brain_risk no_peers_reachable : JoinResult

-- The error behind the loop over the attempts.
abbrev pub unjoined_result : Bool → JoinResult
unjoined_result true = split_brain_risk
unjoined_result false = no_peers_reachable

-- The settings and the addresses after the refresh at the head of an attempt: a refresh that fails
-- keeps the addresses.
unfoldable pub refresh : Config × Bool → List Text → Config × List Text
refresh (cfg, true) ips = (cfg, other_ips_from_initial_cluster cfg.etcd_initial_cluster cfg.my_name)
refresh (cfg, false) ips = (cfg, ips)

-- What the call leaves: the changes, the settings as the last attempt has read them, and the
-- result.
pub record JoinEnd : Type 0 where
  pub changes : List Change
  pub config : Config
  pub result : JoinResult

abbrev pub before_end : List Change → JoinEnd → JoinEnd
before_end changes end = record end { changes = changes ++ end.changes }

-- How an attempt ends: by the return inside the loop over the peers, or with the next attempt.
abbrev pub after_round : Config → List Change × Round → (Bool → JoinEnd) → JoinEnd
after_round cfg (changes, joined rebuilt) next = record {
  changes = changes;
  config = cfg;
  result = existing_in rebuilt;
}
after_round cfg (changes, unjoined reached) next = before_end changes (next reached)

-- The loop over the attempts, with the number of those left.
unfoldable pub join_attempts : Peers → Bool → ℕ → ℕ → Bool → Config → List Text → JoinEnd
join_attempts w force_rejoin zero attempt reachable cfg ips = record {
  changes = [];
  config = cfg;
  result = unjoined_result reachable;
}
join_attempts w force_rejoin (suc left) attempt reachable cfg ips =
    let (cfg', ips') = refresh (w.reload attempt cfg) ips in
    after_round cfg' (join_round w cfg' force_rejoin attempt reachable ips')
      (λ reached. join_attempts w force_rejoin left (suc attempt) reached cfg' ips')

-- `maxRetries`, of at least one attempt.
unfoldable pub max_attempts : ℤ → ℕ
max_attempts (pos zero) = 1
max_attempts (pos (suc n)) = suc n
max_attempts (negsuc n) = 1

-- `tryJoinExistingWithLoader`
unfoldable pub try_join_existing : Peers → Config → List Text → Bool → ℤ → JoinEnd
try_join_existing w cfg other_ips force_rejoin max_retries =
    join_attempts w force_rejoin (max_attempts max_retries) 1 false cfg other_ips
