-- ===== src/Backup/Prune/Newest.antt =====
-- Sorting backups, the newest first.
use mathlib.Core.List.{Perm}
use mathlib.Core.List.Perm
use flux_pg_cluster.Base.{
  ◌≤◌, ◌<◌, ◌≡◌, ◌≢◌, refl, ap, ◌∙◌, inl, inr, List, [], ◌∷◌, ◌++◌, All, All-map, Bool-cases, ltb,
  arith,
}
use flux_pg_cluster.Backup.{BackupFile, insert_newest, sort_newest}

-- The newest first.
abbrev pub Descending : List BackupFile → Type 0
Descending [] = Unit
Descending (f ∷ files) = All (λ g. g.modified ≤ f.modified) files × Descending files

insert_newest-Perm :
    (x : BackupFile) (files : List BackupFile) → Perm (insert_newest x files) (x ∷ files)
unfolding insert_newest
insert_newest-Perm x [] = Perm.refl (x ∷ [])
insert_newest-Perm x (y ∷ files) = elim (Bool-cases (ltb x.modified y.modified)) [
  | inl older ↦
      rw (insert_newest, older)
        (Perm.trans (Perm.cons y (insert_newest-Perm x files)) (Perm.swap x y files))
  | inr newer ↦ rw (insert_newest, newer) (Perm.refl (x ∷ y ∷ files))
]

module _ (P : BackupFile → Type 0) where
  insert_newest-All :
      (x : BackupFile) (files : List BackupFile) → P x → All P files → All P (insert_newest x files)
  unfolding insert_newest
  insert_newest-All x [] p h = (p, tt)
  insert_newest-All x (y ∷ files) p h = elim (Bool-cases (ltb x.modified y.modified)) [
    | inl older ↦ rw (insert_newest, older) (h.0, insert_newest-All x files p h.1)
    | inr newer ↦ rw (insert_newest, newer) (p, h)
  ]

  pub sort_newest-All : (files : List BackupFile) → All P files → All P (sort_newest files)
  unfolding sort_newest
  sort_newest-All [] h = tt
  sort_newest-All (x ∷ files) h =
      insert_newest-All x (sort_newest files) h.0 (sort_newest-All files h.1)

insert_newest-Descending :
    (x : BackupFile) (files : List BackupFile)
    → Descending files
    → Descending (insert_newest x files)
unfolding insert_newest
insert_newest-Descending x [] d = (tt, tt)
insert_newest-Descending x (y ∷ files) d = elim (Bool-cases (ltb x.modified y.modified)) [
  | inl older ↦
      rw (insert_newest, older)
        (
          insert_newest-All (λ g. g.modified ≤ y.modified) x files (ground (arith, older)) d.0,
          insert_newest-Descending x files d.1,
        )
  | inr newer ↦
      rw (insert_newest, newer)
        ((ground (arith, newer), All-map (λ g h. ground (arith, newer, h)) files d.0), d)
]

pub sort_newest-Descending : (files : List BackupFile) → Descending (sort_newest files)
unfolding sort_newest
sort_newest-Descending [] = tt
sort_newest-Descending (x ∷ files) =
    insert_newest-Descending x (sort_newest files) (sort_newest-Descending files)

pub sort_newest-Perm : (files : List BackupFile) → Perm (sort_newest files) files
unfolding sort_newest
sort_newest-Perm [] = Perm.refl []
sort_newest-Perm (x ∷ files) =
    Perm.trans (insert_newest-Perm x (sort_newest files)) (Perm.cons x (sort_newest-Perm files))

insert_newest_first :
    (x : BackupFile) (files : List BackupFile)
    → All (λ g. g.modified ≤ x.modified) files
    → insert_newest x files ≡ x ∷ files
unfolding insert_newest
insert_newest_first x [] h = refl
insert_newest_first x (y ∷ files) h = ground (arith, h.0)

pub sort_newest_same : (files : List BackupFile) → Descending files → sort_newest files ≡ files
unfolding sort_newest
sort_newest_same [] d = refl
sort_newest_same (x ∷ files) d =
    ap (insert_newest x) (sort_newest_same files d.1) ∙ insert_newest_first x files d.0

-- A file with another path than the latest one's, and older.
abbrev pub IsEarlier : BackupFile → BackupFile → Type 0
IsEarlier latest f = (f.path ≢ latest.path) × f.modified < latest.modified

insert_newest_later :
    (x latest : BackupFile) (files : List BackupFile)
    → IsEarlier latest x
    → insert_newest x (latest ∷ files) ≡ latest ∷ insert_newest x files
unfolding insert_newest
insert_newest_later x latest files h = ground (arith, h.1)

-- The latest file comes first.
pub sort_newest-latest :
    (latest : BackupFile) (before after : List BackupFile)
    → All (IsEarlier latest) before
    → All (IsEarlier latest) after
    → sort_newest (before ++ latest ∷ after) ≡ latest ∷ sort_newest (before ++ after)
unfolding sort_newest
sort_newest-latest latest [] after h k = insert_newest_first latest (sort_newest after) (
    All-map (λ g e. omega (arith, e.1)) (sort_newest after)
      (sort_newest-All (IsEarlier latest) after k))
sort_newest-latest latest (x ∷ before) after h k =
    ap (insert_newest x) (sort_newest-latest latest before after h.1 k)
    ∙ insert_newest_later x latest (sort_newest (before ++ after)) h.0
