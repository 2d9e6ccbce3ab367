-- ===== src/Patroni.antt =====
-- internal/patroni/client.go: what a node's Patroni says over HTTP. The network is a function from
-- a URL to the response, where there is one.
use flux_pg_cluster.Base.{
  ℕ, Bool, false, ◌||◌, Option, none, some, List, [], ◌∷◌, ◌++◌, ◌==◌, if◌then◌else◌,
}
use flux_pg_cluster.Base.Int.{ℤ}
use flux_pg_cluster.Number.{itoa}
use flux_pg_cluster.Text.{Text, codes}

pub record Response : Type 0 where
  pub status : ℕ
  pub body : Text

abbrev pub Network : Type 0
Network = Text → Option Response

-- `Client`, less its transport.
pub record Client : Type 0 where
  pub scheme : Text
  pub port : ℤ

-- `New`
unfoldable pub new : Bool → ℤ → Client
new use_ssl port = record { scheme = if use_ssl then codes "https" else codes "http"; port = port }

-- "%s://%s:%d%s"
unfoldable pub node_url : Client → Text → Text → Text
node_url c ip path = c.scheme ++ (codes "://" ++ (ip ++ (b':' ∷ (itoa c.port ++ path))))

abbrev pub has_status : List ℕ → Option Response → Bool
has_status [] r = false
has_status (code ∷ codes) none = false
has_status (code ∷ codes) (some r) = r.status == code || has_status codes (some r)

-- `isHealthy`
unfoldable pub is_healthy : Network → Client → Text → Text → Bool
is_healthy net c ip path = has_status (200 ∷ []) (net (node_url c ip path))

-- `Role`
pub data Role : Type 0 where
  primary replica unknown : Role

-- `CheckRole`; its error is always nil.
unfoldable pub check_role : Network → Client → Text → Role
check_role net c ip =
    if is_healthy net c ip (codes "/primary")
    then primary
    else if is_healthy net c ip (codes "/replica")
    then replica
    else unknown

-- `IsAlive`
unfoldable pub is_alive : Network → Client → Text → Bool
is_alive net c ip = has_status (200 ∷ 503 ∷ []) (net (node_url c ip (codes "/health")))

-- `NodeInfo`
pub record NodeInfo : Type 0 where
  pub role : Text
  pub state : Text
  pub database_system_identifier : Text

-- `ClusterMember`
pub record ClusterMember : Type 0 where
  pub name : Text
  pub role : Text
  pub host : Text
  pub port : ℤ
  pub state : Text

-- The body of a response with status 200, decoded.
abbrev pub decode_ok {ℓ} : {A : Type ℓ} → (Text → Option A) → Option Response → Option A
decode_ok decode none = none
decode_ok decode (some r) = if r.status == 200 then decode r.body else none

-- `GetInfo`, with the decoder of JSON.
unfoldable pub get_info : (Text → Option NodeInfo) → Network → Client → Text → Option NodeInfo
get_info decode net c ip = decode_ok decode (net (node_url c ip (codes "/patroni")))

-- `Cluster`
unfoldable pub cluster :
    (Text → Option (List ClusterMember)) → Network → Client → Text → Option (List ClusterMember)
cluster decode net c ip = decode_ok decode (net (node_url c ip (codes "/cluster")))
