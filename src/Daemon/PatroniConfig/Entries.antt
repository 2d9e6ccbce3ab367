-- ===== src/Daemon/PatroniConfig/Entries.antt =====
-- Looking up and storing the entries of a map.
use flux_pg_cluster.Base.{
  ◌≡◌, ◌≢◌, refl, sym, ap, ◌∙◌, inl, inr, Option, none, some, Bool-cases, Option-cases, arith,
}
use flux_pg_cluster.Daemon.PatroniConfig.{
  Json, Fields, no_fields, field, lookup, assign, set_default,
}
use flux_pg_cluster.Text.{Text, equal}
use flux_pg_cluster.Text.Laws.{equal_iff, equal_refl}

pub lookup-assign : (k : Text) (v : Json) (m : Fields) → lookup k (assign k v m) ≡ some v
unfolding lookup assign
lookup-assign k v no_fields = rw (equal_refl k) refl
lookup-assign k v (field l w m) = elim (Bool-cases (equal k l)) [
  | inl same ↦ rw (same, same) refl
  | inr other ↦ rw (other, other) (lookup-assign k v m)
]

pub lookup-assign_other :
    (k l : Text) (v : Json) (m : Fields) → k ≢ l → lookup k (assign l v m) ≡ lookup k m
unfolding lookup assign
lookup-assign_other k l v no_fields h = ground (arith, equal_iff k l)
lookup-assign_other k l v (field j w m) h =
    let rest = lookup-assign_other k l v m h in
    elim (Bool-cases (equal l j)) [
      | inl same ↦ rw same (ground (arith, equal_iff k l, equal_iff l j, equal_iff k j))
      | inr other ↦ rw (other, rest) refl
    ]

pub assign_same : (k : Text) (v : Json) (m : Fields) → lookup k m ≡ some v → assign k v m ≡ m
unfolding lookup assign
assign_same k v no_fields h = cc h
assign_same k v (field l w m) h = elim (Bool-cases (equal k l)) [
  | inl same ↦ rw same (cc (rw same at h))
  | inr other ↦ rw other (ap (field l w) (assign_same k v m (rw other at h)))
]

pub set_default_known :
    (k : Text) (v w : Json) (m : Fields) → lookup k m ≡ some w → set_default k v m ≡ m
unfolding set_default
set_default_known k v w m h = rw (h, set_default) refl

set_default_missing :
    (k : Text) (v : Json) (m : Fields) → lookup k m ≡ none → set_default k v m ≡ assign k v m
unfolding set_default
set_default_missing k v m h = rw (h, set_default) refl

-- A default stands where nothing stood.
abbrev pub or_default : Option Json → Json → Json
or_default none v = v
or_default (some w) v = w

pub lookup-set_default :
    (k : Text) (v : Json) (m : Fields)
    → lookup k (set_default k v m) ≡ some (or_default (lookup k m) v)
lookup-set_default k v m = elim (Option-cases (lookup k m)) [
  | inl missing ↦
      ap (lookup k) (set_default_missing k v m missing)
      ∙ lookup-assign k v m
      ∙ ap (λ o. some (or_default o v)) (sym missing)
  | inr (w, known) ↦
      ap (lookup k) (set_default_known k v w m known)
      ∙ known
      ∙ ap (λ o. some (or_default o v)) (sym known)
]

pub lookup-set_default_other :
    (k l : Text) (v : Json) (m : Fields) → k ≢ l → lookup k (set_default l v m) ≡ lookup k m
lookup-set_default_other k l v m h = elim (Option-cases (lookup l m)) [
  | inl missing ↦ ap (lookup k) (set_default_missing l v m missing) ∙ lookup-assign_other k l v m h
  | inr (w, known) ↦ ap (lookup k) (set_default_known l v w m known)
]
