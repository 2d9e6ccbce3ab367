-- ===== src/Backup/Prune.antt =====
-- What pruning keeps.
pub mod Newest
pub mod Passes
pub mod Reversed
pub mod Pruned
use flux_pg_cluster.Base.{
  ℕ, zero, suc, ◌+◌, ◌-◌, ◌≤◌, ◌≡◌, ◌≢◌, ◌⊎◌, Bool, true, Option, none, some, List, [], ◌∷◌, All,
  All-append, arith,
}
use flux_pg_cluster.Base.Int.{ℤ, pos, negsuc}
use flux_pg_cluster.Backup.{
  BackupFile, Entry, Pass, sort_newest, retain_newest, total_size, cap_size, reverse_onto,
  after_retention, prune_backups, backups_of_entries,
}
use flux_pg_cluster.Text.{Text}
use flux_pg_cluster.Text.Laws.{equal_iff}

-- None of the files is at the path.
abbrev pub Spares : Text → List BackupFile → Type 0
Spares path = All (λ f. f.path ≢ path)

module _ (keep_path : Text) (removes : Text → Bool) where
  retain_newest-Spares :
      (retain : ℤ) (i : ℕ) (files : List BackupFile)
      → Spares keep_path (retain_newest retain keep_path removes i files).0
  unfolding retain_newest
  retain_newest-Spares retain i [] = tt
  retain_newest-Spares retain i (f ∷ files) =
      let rest = retain_newest-Spares retain (suc i) files in
      ground (arith, equal_iff f.path keep_path, rest)

  cap_size-Spares :
      (max_bytes total : ℕ) (files : List BackupFile)
      → Spares keep_path (cap_size max_bytes keep_path removes total files).0
  unfolding cap_size
  cap_size-Spares max_bytes total [] = tt
  cap_size-Spares max_bytes total (f ∷ []) = tt
  cap_size-Spares max_bytes total (f ∷ g ∷ files) =
      let rest = cap_size-Spares max_bytes (total - f.size) (g ∷ files) in
      ground (arith, equal_iff f.path keep_path, rest)

  after_retention-Spares :
      (max_bytes : ℤ) (p : Pass)
      → Spares keep_path p.0
      → Spares keep_path (after_retention max_bytes keep_path removes p).0
  after_retention-Spares (pos zero) (removed, kept) h = h
  after_retention-Spares (negsuc n) (removed, kept) h = h
  after_retention-Spares (pos (suc n)) (removed, kept) h =
      All-append _ removed _ h (
        cap_size-Spares (suc n) (total_size (sort_newest kept))
          (reverse_onto [] (sort_newest kept)))

-- Pruning never removes the backup at `keep_path`, the one just made, whatever the retention,
-- the cap and the files.
pub prune_backups-Spares :
    (dir : Text) (entries : Option (List Entry)) (retain max_bytes : ℤ) (keep_path : Text)
    (removes : Text → Bool)
    → Spares keep_path (prune_backups dir entries retain max_bytes keep_path removes).0
unfolding prune_backups
prune_backups-Spares dir none retain max_bytes keep_path removes = tt
prune_backups-Spares dir (some entries) retain max_bytes keep_path removes =
    after_retention-Spares keep_path removes max_bytes _ (
      retain_newest-Spares keep_path removes retain 0
        (sort_newest (backups_of_entries dir entries)))
