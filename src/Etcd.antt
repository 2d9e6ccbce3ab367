-- ===== src/Etcd.antt =====
-- internal/etcdmgr/etcdmgr.go: the members of the etcd cluster, read from the output of
-- `etcdctl member list`.
pub mod Lines
pub mod Commands
use flux_pg_cluster.Base.{
  ℕ, zero, suc, Bool, true, false, ◌||◌, Option, none, some, List, [], ◌∷◌, length, drop,
  if◌then◌else◌,
}
use flux_pg_cluster.Text.{
  Text, codes, equal, equal_fold, is_empty, has_prefix, contains, keep_before, split, trim_space,
}

-- `Member`; its field IsLeader is never set.
pub record Member : Type 0 where
  pub id : Text
  pub name : Text
  pub peer_urls : Text
  pub client_urls : Text
  pub is_learner : Bool
  pub unstarted : Bool

-- What stands before and after the first place of a separator of several bytes.
unfoldable pub cut_text : Text → Text → Option (Text × Text)
unfolding has_prefix
cut_text sep [] = none
cut_text sep (c ∷ s) =
    if has_prefix (c ∷ s) sep
    then some ([], drop (length sep) (c ∷ s))
    else keep_before c (cut_text sep s)

-- strings.SplitN(s, sep, n)
unfoldable pub split_n : ℕ → Text → Text → List Text
split_n zero sep s = []
split_n (suc zero) sep s = s ∷ []
split_n (suc (suc n)) sep s = elim (cut_text sep s) [
  | none ↦ s ∷ []
  | some (before, after) ↦ before ∷ split_n (suc n) sep after
]

-- A field, trimmed; Go's zero value where the line has no such field.
unfoldable pub field : ℕ → List Text → Text
field n [] = []
field zero (x ∷ xs) = trim_space x
field (suc n) (x ∷ xs) = field n xs

-- A fifth field that is there and empty marks the member as not started.
unfoldable pub lacks_client : List Text → Bool
lacks_client (id ∷ status ∷ name ∷ peers ∷ clients ∷ rest) = is_empty (trim_space clients)
lacks_client _ = false

unfoldable pub member_of_fields : List Text → Option Member
member_of_fields [] = none
member_of_fields (id ∷ []) = none
member_of_fields (id ∷ status ∷ rest) =
    let fields = id ∷ status ∷ rest in
    some (record {
      id = field 0 fields;
      name = field 2 fields;
      peer_urls = field 3 fields;
      client_urls = field 4 fields;
      is_learner = equal_fold (field 5 fields) (codes "true");
      unstarted = equal (field 1 fields) (codes "unstarted") || lacks_client fields;
    })

-- The body of the loop: one line of the output.
unfoldable pub parse_member_line : Text → Option Member
parse_member_line line =
    let trimmed = trim_space line in
    if is_empty trimmed then none else member_of_fields (split_n 6 (codes ", ") trimmed)

abbrev pub and_rest : Option Member → List Member → List Member
and_rest none members = members
and_rest (some m) members = m ∷ members

unfoldable pub parse_member_lines : List Text → List Member
parse_member_lines [] = []
parse_member_lines (line ∷ lines) = and_rest (parse_member_line line) (parse_member_lines lines)

-- `ParseMemberList`
unfoldable pub parse_member_list : Text → List Member
parse_member_list output = parse_member_lines (split 10 output)

-- `FindByName`
unfoldable pub find_by_name : List Member → Text → Option Member
find_by_name [] name = none
find_by_name (m ∷ members) name = if equal m.name name then some m else find_by_name members name

-- `FindByPeerURL`
unfoldable pub find_by_peer_url : List Member → Text → Option Member
find_by_peer_url [] peer_url = none
find_by_peer_url (m ∷ members) peer_url =
    if equal m.peer_urls peer_url then some m else find_by_peer_url members peer_url

-- `FindByClientIP`
unfoldable pub find_by_client_ip : List Member → Text → Option Member
find_by_client_ip [] ip_port = none
find_by_client_ip (m ∷ members) ip_port =
    if contains m.client_urls ip_port then some m else find_by_client_ip members ip_port
