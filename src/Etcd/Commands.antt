-- ===== src/Etcd/Commands.antt =====
-- internal/etcdmgr/etcdmgr.go: the calls of etcdctl. Running it is a parameter: it gives the
-- trimmed output for the arguments of a command, where the command succeeds.
use flux_pg_cluster.Base.{Bool, true, false, Option, none, some, List, [], ◌∷◌, ◌++◌}
use flux_pg_cluster.Base.Int.{ℤ}
use flux_pg_cluster.Etcd.{Member, parse_member_list}
use flux_pg_cluster.Number.{itoa}
use flux_pg_cluster.Text.{Text, codes, is_space}

-- `Client`
pub record Client : Type 0 where
  pub endpoint : Text
  pub ssl_opts : List Text

-- The arguments that `run` gives to etcdctl, with the time allowed as Go prints it.
unfoldable pub full_args : Client → Text → List Text → List Text
full_args c timeout args =
    c.ssl_opts
    ++ ((codes "--endpoints=" ++ c.endpoint) ∷ (codes "--dial-timeout=" ++ timeout) ∷ args)

abbrev pub push_word : Text → List Text → List Text
push_word [] words = words
push_word (c ∷ word) words = (c ∷ word) ∷ words

-- strings.Fields(s), with the word that is being read.
unfoldable pub fields_from : Text → Text → List Text
fields_from word [] = push_word word []
fields_from word (c ∷ s) = elim (is_space c) [
  | true ↦ push_word word (fields_from [] s)
  | false ↦ fields_from (word ++ c ∷ []) s
]

module _ (run : List Text → Option Text) where
  abbrev pub succeeds : List Text → Bool
  succeeds args = elim (run args) [ none ↦ false | some _ ↦ true ]

  abbrev pub parsed : Option Text → Option (List Member)
  parsed none = none
  parsed (some out) = some (parse_member_list out)

  -- `MemberList`
  unfoldable pub member_list : Option (List Member)
  member_list = parsed (run (codes "member" ∷ codes "list" ∷ []))

  -- `MemberAdd`, `MemberAddLearner`, `MemberPromote` and `MemberRemove`: whether their error is nil.
  unfoldable pub member_add : Text → Text → Bool
  member_add name peer_url =
      succeeds (codes "member" ∷ codes "add" ∷ name ∷ (codes "--peer-urls=" ++ peer_url) ∷ [])

  unfoldable pub member_add_learner : Text → Text → Bool
  member_add_learner name peer_url = succeeds (
      codes "member"
      ∷ codes "add"
      ∷ name
      ∷ (codes "--peer-urls=" ++ peer_url)
      ∷ codes "--learner"
      ∷ [])

  unfoldable pub member_promote : Text → Bool
  member_promote id = succeeds (codes "member" ∷ codes "promote" ∷ id ∷ [])

  unfoldable pub member_remove : Text → Bool
  member_remove id = succeeds (codes "member" ∷ codes "remove" ∷ id ∷ [])

  abbrev pub put_with_lease : Text → Text → List Text → Bool
  put_with_lease key value (first ∷ lease_id ∷ rest) =
      succeeds (codes "put" ∷ (codes "--lease=" ++ lease_id) ∷ key ∷ value ∷ [])
  put_with_lease key value _ = false

  abbrev pub put_granted : Text → Text → Option Text → Bool
  put_granted key value none = false
  put_granted key value (some out) = put_with_lease key value (fields_from [] out)

  -- `SetWithTTL`
  unfoldable pub set_with_ttl : Text → Text → ℤ → Bool
  set_with_ttl key value ttl_secs =
      put_granted key value (run (codes "lease" ∷ codes "grant" ∷ itoa ttl_secs ∷ []))

  -- `Set`, `Get`, `RM` and `RMRecursive`
  unfoldable pub set : Text → Text → Bool
  set key value = succeeds (codes "put" ∷ key ∷ value ∷ [])

  unfoldable pub get : Text → Option Text
  get key = run (codes "get" ∷ codes "--print-value-only" ∷ key ∷ [])

  unfoldable pub rm : Text → Bool
  rm key = succeeds (codes "del" ∷ key ∷ [])

  unfoldable pub rm_recursive : Text → Bool
  rm_recursive prefix = succeeds (codes "del" ∷ codes "--prefix" ∷ prefix ∷ [])
