-- ===== src/Backup.antt =====
-- cmd/flux-agent/backup.go: pruning the directory of backups. Times of modification and sizes are
-- numbers; files of one time stand in the order of the directory.
pub mod Prune
pub mod Dump
pub mod Cycle
use flux_pg_cluster.Base.{
  ℕ, zero, suc, ◌+◌, ◌-◌, Bool, true, false, not, ◌&&◌, ◌||◌, Option, none, some, List, [], ◌∷◌,
  ◌++◌, ltb, if◌then◌else◌,
}
use flux_pg_cluster.Base.Int.{ℤ, pos, negsuc, ltb_ℤ, leb_ℤ}
use flux_pg_cluster.Text.{Text, codes, equal, has_prefix, has_suffix}

-- `backupFile`; its field `mod`, a reserved word here, is the time of modification.
pub record BackupFile : Type 0 where
  pub path : Text
  pub modified : ℕ
  pub size : ℕ

-- An entry of the directory, with its time and size where they can be read.
pub record Entry : Type 0 where
  pub name : Text
  pub is_dir : Bool
  pub info : Option (ℕ × ℕ)

-- The file that an entry is, where it is a backup.
unfoldable pub backup_of_entry : Text → Entry → List BackupFile
backup_of_entry dir e =
    if e.is_dir
      || not (has_prefix e.name (codes "pgdumpall-"))
      || not (has_suffix e.name (codes ".sql.gz"))
    then []
    else elim e.info [
      | none ↦ []
      | some (modified, size) ↦
          record { path = dir ++ (codes "/" ++ e.name); modified = modified; size = size } ∷ []
    ]

unfoldable pub backups_of_entries : Text → List Entry → List BackupFile
backups_of_entries dir [] = []
backups_of_entries dir (e ∷ es) = backup_of_entry dir e ++ backups_of_entries dir es

unfoldable pub insert_newest : BackupFile → List BackupFile → List BackupFile
insert_newest x [] = x ∷ []
insert_newest x (y ∷ ys) =
    let rest = insert_newest x ys in if ltb x.modified y.modified then y ∷ rest else x ∷ y ∷ ys

-- The newest first.
unfoldable pub sort_newest : List BackupFile → List BackupFile
sort_newest [] = []
sort_newest (x ∷ xs) = insert_newest x (sort_newest xs)

-- What a pass leaves: the files that are gone, and those that stay.
abbrev pub Pass : Type 0
Pass = List BackupFile × List BackupFile

abbrev pub gone : BackupFile → Pass → Pass
gone f (removed, kept) = (f ∷ removed, kept)

abbrev pub stays : BackupFile → Pass → Pass
stays f (removed, kept) = (removed, f ∷ kept)

-- The pass by count, from index `i` on; `removes` says whether a file can be removed.
unfoldable pub retain_newest : ℤ → Text → (Text → Bool) → ℕ → List BackupFile → Pass
retain_newest retain keep_path removes i [] = ([], [])
retain_newest retain keep_path removes i (f ∷ files) =
    let rest = retain_newest retain keep_path removes (suc i) files in
    if ltb_ℤ (pos i) retain || equal f.path keep_path
    then stays f rest
    else if removes f.path
    then gone f rest
    else stays f rest

unfoldable pub total_size : List BackupFile → ℕ
total_size [] = 0
total_size (f ∷ files) = f.size + total_size files

-- The pass by size, over the kept files with the oldest first.
unfoldable pub cap_size : ℕ → Text → (Text → Bool) → ℕ → List BackupFile → Pass
cap_size max_bytes keep_path removes total [] = ([], [])
cap_size max_bytes keep_path removes total (f ∷ []) = ([], f ∷ [])
cap_size max_bytes keep_path removes total (f ∷ g ∷ files) =
    let rest = cap_size max_bytes keep_path removes (total - f.size) (g ∷ files) in
    if not (ltb max_bytes total)
    then ([], f ∷ g ∷ files)
    else if equal f.path keep_path
    then ([], f ∷ g ∷ files)
    else if not (removes f.path)
    then ([], f ∷ g ∷ files)
    else gone f rest

unfoldable pub reverse_onto : List BackupFile → List BackupFile → List BackupFile
reverse_onto acc [] = acc
reverse_onto acc (f ∷ files) = reverse_onto (f ∷ acc) files

abbrev pub after_retention : ℤ → Text → (Text → Bool) → Pass → Pass
after_retention (pos zero) keep_path removes (removed, kept) = (removed, kept)
after_retention (negsuc n) keep_path removes (removed, kept) = (removed, kept)
after_retention (pos (suc n)) keep_path removes (removed, kept) =
    let (capped, rest) =
      cap_size (suc n) keep_path removes (total_size (sort_newest kept))
        (reverse_onto [] (sort_newest kept)) in
    (removed ++ capped, rest)

-- `pruneBackups`: the removed files, and those that stay; nothing happens where the directory
-- cannot be read.
unfoldable pub prune_backups : Text → Option (List Entry) → ℤ → ℤ → Text → (Text → Bool) → Pass
prune_backups dir none retain max_bytes keep_path removes = ([], [])
prune_backups dir (some entries) retain max_bytes keep_path removes =
    after_retention max_bytes keep_path removes
      (retain_newest retain keep_path removes 0 (sort_newest (backups_of_entries dir entries)))
