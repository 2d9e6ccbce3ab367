-- ===== src/Backup/Cycle/Gated.antt =====
-- Earlier backups are touched only behind every gate.
use flux_pg_cluster.Base.{
  ℕ, ◌-◌, ◌*◌, ◌^◌, ◌≤◌, ◌⊎◌, leb, ◌≡◌, ◌≢◌, refl, sym, ◌∙◌, subst, inl, inr, Bool, true, false,
  not, Option, some, List, [], ◌∷◌, map, Member, Bool-cases, arith, if◌then◌else◌,
}
use flux_pg_cluster.Base.Int.{ℤ, pos, negsuc, leb_ℤ, wrap_int64}
use flux_pg_cluster.Backup.{BackupFile, prune_backups}
use flux_pg_cluster.Backup.Cycle.{
  Settings, Surroundings, dumped, removed, renamed, final_path, temporary_path, path_removed,
  local_is_healthy_primary, promote_dump, run_backup_cycle, at_least, env_bool_or, env_int_or,
  backup_settings, times_second, pause,
}
use flux_pg_cluster.Backup.Dump.{verify_dump}
use flux_pg_cluster.Backup.Prune.{Spares, prune_backups-Spares}
use flux_pg_cluster.Config.{Config}
use flux_pg_cluster.Config.Env.{Environ}
use flux_pg_cluster.Patroni.{NodeInfo}
use flux_pg_cluster.Text.{Text, codes}

-- All gates are passed: a healthy primary has a dump that is verified and in its place.
pub record IsBackedUp (decode : Text → Option NodeInfo) (cfg : Config) (s : Settings)
    (w : Surroundings) : Type 0 where
  pub primary : local_is_healthy_primary decode w.network cfg ≡ true
  pub made : w.dumps ≡ true
  pub verified : verify_dump w.size w.stream ≡ true
  pub promoted : w.renames ≡ true

path_eq : {p q : Text} → removed p ≡ removed q → p ≡ q
path_eq e = cc e

removed_of :
    (keep path : Text) (files : List BackupFile)
    → Spares keep files
    → Member (removed path) (map path_removed files)
    → path ≢ keep
removed_of keep path [] h m = absurd m
removed_of keep path (f ∷ files) h (inl e) = λ k. h.0 (path_eq e ∙ k)
removed_of keep path (f ∷ files) h (inr m) = removed_of keep path files h.1 m

promote-removed :
    (s : Settings) (w : Surroundings) (path : Text)
    → Member (removed path) (promote_dump s w)
    → path ≢ temporary_path s w
    → (verify_dump w.size w.stream ≡ true) × (w.renames ≡ true) × (path ≢ final_path s w)
unfolding promote_dump
promote-removed s w path m n =
    let spared =
      removed_of (final_path s w) path
        (prune_backups s.dir w.entries s.retain s.max_bytes (final_path s w) w.removes).0
        (prune_backups-Spares s.dir w.entries s.retain s.max_bytes (final_path s w) w.removes) in
    cases (verify_dump w.size w.stream) w.renames spared m
  where
    cases :
        (verified renames : Bool)
        → (Member (removed path) (
              map path_removed
                (prune_backups s.dir w.entries s.retain s.max_bytes (final_path s w) w.removes).0)
            → path ≢ final_path s w)
        → Member (removed path) (
            if not verified
            then removed (temporary_path s w) ∷ []
            else if not renames
            then removed (temporary_path s w) ∷ []
            else renamed (temporary_path s w) (final_path s w)
              ∷ map path_removed
                  (prune_backups s.dir w.entries s.retain s.max_bytes (final_path s w) w.removes).0)
        → (verified ≡ true) × (renames ≡ true) × (path ≢ final_path s w)
    cases false renames spared (inl e) = absurd (n (sym (path_eq e)))
    cases false renames spared (inr k) = absurd k
    cases true false spared (inl e) = absurd (n (sym (path_eq e)))
    cases true false spared (inr k) = absurd k
    cases true true spared (inl e) = cc e
    cases true true spared (inr k) = (refl, refl, spared k)

-- An attempt removes a file other than its own temporary one only after all gates: the local
-- Patroni calls this node a running primary, the dump has succeeded, been verified and taken its
-- final name; and the file is not that new backup.
pub run_backup_cycle-IsBackedUp :
    (decode : Text → Option NodeInfo) (cfg : Config) (s : Settings) (w : Surroundings) (path : Text)
    → Member (removed path) (run_backup_cycle decode cfg s w)
    → path ≢ temporary_path s w
    → IsBackedUp decode cfg s w × (path ≢ final_path s w)
unfolding run_backup_cycle
run_backup_cycle-IsBackedUp decode cfg s w path m n =
    cases (local_is_healthy_primary decode w.network cfg) w.has_dumpall w.makes_dir w.dumps refl
      refl m
  where
    cases :
        (healthy has_dumpall makes_dir dumps : Bool)
        → local_is_healthy_primary decode w.network cfg ≡ healthy
        → w.dumps ≡ dumps
        → Member (removed path) (
            if not healthy
            then []
            else if not has_dumpall
            then []
            else if not makes_dir
            then []
            else dumped (temporary_path s w)
              ∷ (if not dumps then removed (temporary_path s w) ∷ [] else promote_dump s w))
        → IsBackedUp decode cfg s w × (path ≢ final_path s w)
    cases false has_dumpall makes_dir dumps h d k = absurd k
    cases true false makes_dir dumps h d k = absurd k
    cases true true false dumps h d k = absurd k
    cases true true true dumps h d (inl e) = cc e
    cases true true true false h d (inr (inl e)) = absurd (n (sym (path_eq e)))
    cases true true true false h d (inr (inr k)) = absurd k
    cases true true true true h d (inr k) =
        let (verified, promoted, spared) = promote-removed s w path k n in
        (record { primary = h; made = d; verified = verified; promoted = promoted }, spared)

at_least-le : (low : ℕ) (z : ℤ) → leb_ℤ (pos low) (at_least (pos low) z) ≡ true
at_least-le low (pos n) = ground arith
at_least-le low (negsuc n) = ground arith

abbrev IsClamped : Settings → Type 0
IsClamped s = (leb_ℤ (pos 60) s.interval ≡ true) × (leb_ℤ (pos 1) s.retain ≡ true)

settings_eq : {s t : Settings} → some s ≡ some t → s ≡ t
settings_eq e = cc e

backup_settings-IsClamped : (e : Environ) (s : Settings) → backup_settings e ≡ some s → IsClamped s
unfolding backup_settings
backup_settings-IsClamped e s h = elim (Bool-cases (env_bool_or e (codes "BACKUP_ENABLED") false)) [
  | inl enabled ↦ subst IsClamped (settings_eq (rw enabled at h)) (
    at_least-le 60 (env_int_or e (codes "BACKUP_INTERVAL_SECONDS") (pos 86400)),
    at_least-le 1 (env_int_or e (codes "BACKUP_RETENTION_COUNT") (pos 1)),
  )
  | inr idle ↦ absurd (cc (rw idle at h))
]

-- The pause is the interval; or the interval is longer than Go's 64 bits of nanoseconds hold, and
-- the pause is negative.
abbrev pub Pauses : Settings → Type 0
Pauses s =
    (n : ℕ) × (s.interval ≡ pos n)
    × (60 ≤ n)
    × (((n ≤ 9223372036) × (pause s ≡ pos (n * 1000000000)))
        ⊎ ((9223372037 ≤ n) × ((m : ℕ) × (pause s ≡ negsuc m))))

wrapped :
    (z : ℤ)
    → leb_ℤ (pos 60) z ≡ true
    → leb_ℤ z (pos 18446744073) ≡ true
    → (n : ℕ) × (z ≡ pos n)
      × (60 ≤ n)
      × (((n ≤ 9223372036) × (wrap_int64 (times_second z) ≡ pos (n * 1000000000)))
          ⊎ ((9223372037 ≤ n) × ((m : ℕ) × (wrap_int64 (times_second z) ≡ negsuc m))))
unfolding wrap_int64
wrapped (negsuc n) h k = absurd (ground arith)
wrapped (pos n) h k = (
  n,
  refl,
  ground arith,
  elim (Bool-cases (leb n 9223372036)) [
    | inl short ↦ inl (ground arith, ground arith)
    | inr long ↦ inr (ground arith, (2 ^ 64 - n * 1000000000 - 1, ground arith))
  ],
)

-- Once backups are enabled, the loop keeps at least one backup, and waits between two attempts for
-- the interval, of at least a minute, where that is at most 9223372036 seconds. From there to
-- 18446744073 seconds the pause is negative, and the loop does not wait.
pub backup_settings-bounded :
    (e : Environ) (s : Settings)
    → backup_settings e ≡ some s
    → leb_ℤ s.interval (pos 18446744073) ≡ true
    → Pauses s × (leb_ℤ (pos 1) s.retain ≡ true)
unfolding pause
backup_settings-bounded e s h k =
    let (interval, retain) = backup_settings-IsClamped e s h in
    (wrapped s.interval interval k, retain)
