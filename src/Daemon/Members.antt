-- ===== src/Daemon/Members.antt =====
-- The parts of `runReconcile` that change the members of the etcd cluster: ghosts, members that
-- have left, and learners.
pub mod Departed
use flux_pg_cluster.Base.{
  Bool, true, false, not, ◌&&◌, ◌||◌, Option, none, some, List, [], ◌∷◌, ◌++◌, if◌then◌else◌,
}
use flux_pg_cluster.Base.Int.{ℤ}
use flux_pg_cluster.Etcd.{Member, find_by_client_ip}
use flux_pg_cluster.Text.{Text, contains_string, is_empty}
use flux_pg_cluster.Topology.{extract_host_from_url, host_port}

-- Calls of `MemberRemove` and `MemberPromote`, with the member's identifier.
pub data Change : Type 0 where
  removed promoted : Text → Change

-- The body of the loop of `membersIPs`.
unfoldable pub member_ip : Member → List Text
member_ip m =
    if is_empty m.client_urls
    then []
    else if is_empty (extract_host_from_url m.client_urls)
    then []
    else extract_host_from_url m.client_urls ∷ []

-- `membersIPs`
unfoldable pub members_ips : List Member → List Text
members_ips [] = []
members_ips (m ∷ members) = member_ip m ++ members_ips members

-- The body of the loop over the ghosts.
unfoldable pub ghost_change : List Text → Member → List Change
ghost_change desired_ips m =
    if not m.unstarted
    then []
    else if contains_string desired_ips (extract_host_from_url m.peer_urls)
    then []
    else removed m.id ∷ []

unfoldable pub remove_ghosts : List Text → List Member → List Change
remove_ghosts desired_ips [] = []
remove_ghosts desired_ips (m ∷ members) =
    ghost_change desired_ips m ++ remove_ghosts desired_ips members

abbrev pub remove_found : Option Member → List Change
remove_found none = []
remove_found (some m) = if is_empty m.id then [] else removed m.id ∷ []

-- The body of the loop over the addresses of the members; `reachable` says whether a member's
-- etcd answers.
unfoldable pub departed_change :
    ℤ → List Text → Bool → (Text → Bool) → List Member → Text → List Change
departed_change client_port desired_ips stable reachable members current =
    if contains_string desired_ips current
    then []
    else if not stable && reachable current
    then []
    else remove_found (find_by_client_ip members (host_port current client_port))

unfoldable pub remove_departed :
    ℤ → List Text → Bool → (Text → Bool) → List Member → List Text → List Change
remove_departed client_port desired_ips stable reachable members [] = []
remove_departed client_port desired_ips stable reachable members (current ∷ currents) =
    departed_change client_port desired_ips stable reachable members current
    ++ remove_departed client_port desired_ips stable reachable members currents

-- The body of the loop over the learners; `healthy` is the answer to GET /health.
unfoldable pub learner_change : List Text → (Text → Bool) → Member → List Change
learner_change desired_ips healthy m =
    let ip = extract_host_from_url m.client_urls in
    if not m.is_learner || is_empty m.name
    then []
    else if is_empty ip || not (contains_string desired_ips ip)
    then []
    else if not (healthy ip)
    then []
    else promoted m.id ∷ []

unfoldable pub promote_learners : List Text → (Text → Bool) → List Member → List Change
promote_learners desired_ips healthy [] = []
promote_learners desired_ips healthy (m ∷ members) =
    learner_change desired_ips healthy m ++ promote_learners desired_ips healthy members
