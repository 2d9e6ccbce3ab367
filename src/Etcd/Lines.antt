-- ===== src/Etcd/Lines.antt =====
-- The printed line of a member, as `etcdctl member list` writes it, is read back.
use mathlib.Core.List.{append_assoc}
use flux_pg_cluster.Base.{
  ℕ, suc, ◌≡◌, ◌≢◌, refl, sym, ap, ◌∙◌, Bool, true, false, ◌||◌, none, some, List, [], ◌∷◌, ◌++◌,
  All, All-map, map, arith, if◌then◌else◌,
}
use flux_pg_cluster.Etcd.{
  Member, and_rest, cut_text, split_n, field, lacks_client, member_of_fields, parse_member_line,
  parse_member_lines, parse_member_list,
}
use flux_pg_cluster.Text.{
  Text, codes, equal, equal_fold, is_empty, has_prefix, join, trim_space, trim_left, trim_right,
}
use flux_pg_cluster.Text.Laws.{
  Lacks, Lacks-append, NoSpace, IsTrimmed, NoSpace-IsTrimmed, NoSpace-trim_right, split-join,
}

-- A field is free of commas and white space.
pub record IsField (s : Text) : Type 0 where
  pub no_comma : Lacks b',' s
  pub no_space : NoSpace s

-- A member as etcd v3.5 lists it: a member without a client URL has not started.
pub record IsListed (m : Member) : Type 0 where
  pub id : IsField m.id
  pub id_ne_nil : m.id ≢ []
  pub name : IsField m.name
  pub peer_urls : IsField m.peer_urls
  pub client_urls : IsField m.client_urls
  pub no_client : m.client_urls ≡ [] → m.unstarted ≡ true

-- Fields with a comma and a space between.
abbrev sep : Text
sep = codes ", "

abbrev status_word : Bool → Text
status_word unstarted = if unstarted then codes "unstarted" else codes "started"

abbrev bool_word : Bool → Text
bool_word b = if b then codes "true" else codes "false"

-- The line that etcd prints for a member.
abbrev pub print_member : Member → Text
print_member m =
    m.id
    ++ (sep
        ++ (status_word m.unstarted
            ++ (sep
                ++ (m.name
                    ++ (sep
                        ++ (m.peer_urls
                            ++ (sep ++ (m.client_urls ++ (sep ++ bool_word m.is_learner)))))))))

cut_text_lem : (a b : Text) → Lacks b',' a → cut_text sep (a ++ (sep ++ b)) ≡ some (a, b)
unfolding cut_text has_prefix
cut_text_lem [] b h = refl
cut_text_lem (c ∷ a) b h = let rest = cut_text_lem a b h.1 in ground (arith, rest)

cut_text-none : (a : Text) → Lacks b',' a → cut_text sep a ≡ none
unfolding cut_text has_prefix
cut_text-none [] h = refl
cut_text-none (c ∷ a) h = let rest = cut_text-none a h.1 in ground (arith, rest)

split_n_lem :
    (n : ℕ) (a b : Text)
    → Lacks b',' a
    → split_n (suc (suc n)) sep (a ++ (sep ++ b)) ≡ a ∷ split_n (suc n) sep b
unfolding split_n
split_n_lem n a b h = rw (cut_text_lem a b h, split_n) refl

status_word-Lacks : (b : Bool) → Lacks b',' (status_word b)
status_word-Lacks true = ground arith
status_word-Lacks false = ground arith

append-ne-nil_right : (s w : Text) → w ≢ [] → is_empty (s ++ w) ≡ false
append-ne-nil_right [] [] k = absurd (k refl)
append-ne-nil_right [] (c ∷ w) k = refl
append-ne-nil_right (c ∷ s) w k = refl

trim_right_lem : (s w : Text) → NoSpace w → w ≢ [] → trim_right (s ++ w) ≡ s ++ w
unfolding trim_right
trim_right_lem [] w h k = NoSpace-trim_right w h
trim_right_lem (c ∷ s) w h k =
    let rest = trim_right_lem s w h k in
    let more = append-ne-nil_right s w k in rw (rest, more) (ground arith)

fields-print :
    (m : Member)
    → IsListed m
    → split_n 6 sep (print_member m)
      ≡ m.id
        ∷ status_word m.unstarted
        ∷ m.name
        ∷ m.peer_urls
        ∷ m.client_urls
        ∷ bool_word m.is_learner
        ∷ []
unfolding split_n
fields-print m h =
    split_n_lem 4 m.id _ h.id.no_comma
    ∙ ap (◌∷◌ m.id) (
        split_n_lem 3 (status_word m.unstarted) _ (status_word-Lacks m.unstarted)
        ∙ ap (◌∷◌ (status_word m.unstarted)) (
            split_n_lem 2 m.name _ h.name.no_comma
            ∙ ap (◌∷◌ m.name) (
                split_n_lem 1 m.peer_urls _ h.peer_urls.no_comma
                ∙ ap (◌∷◌ m.peer_urls) (split_n_lem 0 m.client_urls _ h.client_urls.no_comma))))

learner_lem : (b : Bool) → equal_fold (trim_space (bool_word b)) (codes "true") ≡ b
unfolding trim_space equal_fold
learner_lem true = refl
learner_lem false = refl

started_lem : (b : Bool) → equal (trim_space (status_word b)) (codes "unstarted") ≡ b
unfolding trim_space equal
started_lem true = refl
started_lem false = refl

no_client_lem : (b : Bool) (s : Text) → (s ≡ [] → b ≡ true) → (b || is_empty s) ≡ b
no_client_lem true s h = refl
no_client_lem false [] h = cc (h refl)
no_client_lem false (c ∷ s) h = refl

member-fields :
    (m : Member)
    → IsListed m
    → member_of_fields (
        m.id
        ∷ status_word m.unstarted
        ∷ m.name
        ∷ m.peer_urls
        ∷ m.client_urls
        ∷ bool_word m.is_learner
        ∷ [])
      ≡ some m
unfolding member_of_fields field lacks_client
member-fields m h =
    rw
      (
        NoSpace-IsTrimmed m.id h.id.no_space,
        NoSpace-IsTrimmed m.name h.name.no_space,
        NoSpace-IsTrimmed m.peer_urls h.peer_urls.no_space,
        NoSpace-IsTrimmed m.client_urls h.client_urls.no_space,
        learner_lem m.is_learner,
        started_lem m.unstarted,
        no_client_lem m.unstarted m.client_urls h.no_client,
      )
      refl

bool_word-NoSpace : (b : Bool) → NoSpace (bool_word b) × (bool_word b ≢ [])
bool_word-NoSpace true = ((refl, (refl, (refl, (refl, tt)))), λ e. cc)
bool_word-NoSpace false = ((refl, (refl, (refl, (refl, (refl, tt))))), λ e. cc)

-- The line without its last word.
front : Member → Text
front m =
    m.id
    ++ (sep
        ++ (status_word m.unstarted
            ++ (sep ++ (m.name ++ (sep ++ (m.peer_urls ++ (sep ++ (m.client_urls ++ sep))))))))

print-front : (m : Member) → print_member m ≡ front m ++ bool_word m.is_learner
unfolding front
print-front m = simp append_assoc

is_empty_lem : (a s : Text) → a ≢ [] → is_empty (a ++ s) ≡ false
is_empty_lem [] s k = absurd (k refl)
is_empty_lem (c ∷ a) s k = refl

status_word-line : (b : Bool) → Lacks 10 (status_word b)
status_word-line true = ground arith
status_word-line false = ground arith

trim_left_lem : (a s : Text) → NoSpace a → a ≢ [] → trim_left (a ++ s) ≡ a ++ s
unfolding trim_left
trim_left_lem [] s h k = absurd (k refl)
trim_left_lem (c ∷ a) s h k = rw h.0 refl

print-IsTrimmed : (m : Member) → IsListed m → IsTrimmed (print_member m)
unfolding trim_space
print-IsTrimmed m h =
    let (plain, ne) = bool_word-NoSpace m.is_learner in
    ap trim_right (trim_left_lem m.id _ h.id.no_space h.id_ne_nil)
    ∙ ap trim_right (print-front m)
    ∙ trim_right_lem (front m) (bool_word m.is_learner) plain ne
    ∙ sym (print-front m)

is_empty-print : (m : Member) → IsListed m → is_empty (print_member m) ≡ false
is_empty-print m h = is_empty_lem m.id _ h.id_ne_nil

parse_member_line-print : (m : Member) → IsListed m → parse_member_line (print_member m) ≡ some m
unfolding parse_member_line
parse_member_line-print m h =
    rw (print-IsTrimmed m h, is_empty-print m h, fields-print m h) (member-fields m h)

-- No byte of a field ends the line.
NoSpace-Lacks : (s : Text) → NoSpace s → Lacks 10 s
NoSpace-Lacks = All-map (λ c e. ground arith)

print-Lacks : (m : Member) → IsListed m → Lacks 10 (print_member m)
print-Lacks m h =
    let sep_lacks : Lacks 10 sep = (omega arith, (omega arith, tt)) in
    let join_lacks = λ (s t : Text) (p : Lacks 10 s) (q : Lacks 10 t).
      Lacks-append 10 s (sep ++ t) p (Lacks-append 10 sep t sep_lacks q) in
    join_lacks m.id _ (NoSpace-Lacks m.id h.id.no_space) (
      join_lacks (status_word m.unstarted) _ (status_word-line m.unstarted) (
        join_lacks m.name _ (NoSpace-Lacks m.name h.name.no_space) (
          join_lacks m.peer_urls _ (NoSpace-Lacks m.peer_urls h.peer_urls.no_space) (
            join_lacks m.client_urls _ (NoSpace-Lacks m.client_urls h.client_urls.no_space)
              (NoSpace-Lacks (bool_word m.is_learner) (bool_word-NoSpace m.is_learner).0)))))

parse_member_lines-print :
    (ms : List Member) → All IsListed ms → parse_member_lines (map print_member ms) ≡ ms
unfolding parse_member_lines
parse_member_lines-print [] h = refl
parse_member_lines-print (m ∷ ms) h =
    let rest = parse_member_lines-print ms h.1 in
    ap (λ o. and_rest o (parse_member_lines (map print_member ms))) (parse_member_line-print m h.0)
    ∙ ap (◌∷◌ m) rest

lines-Lacks : (ms : List Member) → All IsListed ms → All (Lacks 10) (map print_member ms)
lines-Lacks [] h = tt
lines-Lacks (m ∷ ms) h = (print-Lacks m h.0, lines-Lacks ms h.1)

-- Every list of members, printed line by line as `etcdctl member list` does, is read back whole,
-- where the fields are free of commas and white space, no identifier is empty, and a member
-- without a client URL has not started.
pub parse_member_list-print :
    (m : Member) (ms : List Member)
    → All IsListed (m ∷ ms)
    → parse_member_list (join (10 ∷ []) (map print_member (m ∷ ms))) ≡ m ∷ ms
unfolding parse_member_list
parse_member_list-print m ms h =
    ap parse_member_lines
      (split-join 10 (print_member m) (map print_member ms) (lines-Lacks (m ∷ ms) h))
    ∙ parse_member_lines-print (m ∷ ms) h
