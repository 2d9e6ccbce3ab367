-- ===== src/Tests/Backup.antt =====
-- Tests of pruning: three dumps, a file of another kind, and a directory.
use flux_pg_cluster.Base.{
  ◌≡◌, ◌≢◌, refl, inl, inr, true, false, Option, some, List, [], ◌∷◌, Member, arith, if◌then◌else◌,
}
use flux_pg_cluster.Base.Int.{pos, negsuc, leb_ℤ}
use flux_pg_cluster.Backup.{BackupFile, Entry, backups_of_entries, prune_backups}
use flux_pg_cluster.Backup.Prune.{Spares, prune_backups-Spares}
use flux_pg_cluster.Backup.Prune.Pruned.{IsPruned, prune_backups-IsPruned}
use flux_pg_cluster.Backup.Cycle.{Settings, removed, run_backup_cycle, backup_settings, pause}
use flux_pg_cluster.Backup.Cycle.Gated.{
  IsBackedUp, run_backup_cycle-IsBackedUp, Pauses, backup_settings-bounded,
}
use flux_pg_cluster.Backup.Dump.{GzipStream, gzip_contains, dump_complete_mark, verify_dump}
use flux_pg_cluster.Backup.Dump.Chunks.{content, verdict, gzip_contains-content}
use flux_pg_cluster.Config.Env.{Environ}
use flux_pg_cluster.Patroni.{NodeInfo}
use flux_pg_cluster.Tests.Cluster.{config_a}
use flux_pg_cluster.Text.{Text, codes, equal, contains}
use flux_pg_cluster.Text.Laws.{equal_iff}

abbrev listing : List Entry
listing =
    record { name = codes "pgdumpall-1.sql.gz"; is_dir = false; info = some (1, 40) }
    ∷ record { name = codes "pgdumpall-2.sql.gz"; is_dir = false; info = some (2, 50) }
    ∷ record { name = codes "pgdumpall-3.sql.gz"; is_dir = false; info = some (3, 60) }
    ∷ record { name = codes "notes.txt"; is_dir = false; info = some (4, 70) }
    ∷ record { name = codes "pgdumpall-0.sql.gz"; is_dir = true; info = some (5, 80) }
    ∷ []

abbrev latest : Text
latest = codes "/b/pgdumpall-3.sql.gz"

prune_backups-Spares_example :
    Spares latest
      (prune_backups (codes "/b") (some listing) (pos 2) (pos 100) latest (λ path. true)).0
prune_backups-Spares_example =
    prune_backups-Spares (codes "/b") (some listing) (pos 2) (pos 100) latest (λ path. true)

abbrev dump_of_day_one : BackupFile
dump_of_day_one = record { path = codes "/b/pgdumpall-1.sql.gz"; modified = 1; size = 40 }

abbrev dump_of_day_two : BackupFile
dump_of_day_two = record { path = codes "/b/pgdumpall-2.sql.gz"; modified = 2; size = 50 }

abbrev dump_of_day_three : BackupFile
dump_of_day_three = record { path = latest; modified = 3; size = 60 }

listed :
    backups_of_entries (codes "/b") listing
    ≡ dump_of_day_one ∷ dump_of_day_two ∷ dump_of_day_three ∷ []
unfolding backups_of_entries flux_pg_cluster.Backup.backup_of_entry flux_pg_cluster.Text.has_prefix
    flux_pg_cluster.Text.has_suffix equal
listed = refl

earlier : (a b : Text) → equal a b ≡ false → a ≢ b
earlier a b h e = ground (arith, equal_iff a b)

prune_backups-IsPruned_example :
    IsPruned
      (backups_of_entries (codes "/b") listing)
      dump_of_day_three
      2
      100
      (prune_backups (codes "/b") (some listing) (pos 2) (pos 100) latest (λ path. true))
unfolding equal
prune_backups-IsPruned_example =
    prune_backups-IsPruned (codes "/b") listing 1 99 (λ path. true)
      (dump_of_day_one ∷ dump_of_day_two ∷ []) [] dump_of_day_three (λ path. refl) listed
      ((earlier _ _ refl, omega arith), ((earlier _ _ refl, omega arith), tt)) tt

kept_only :
    (prune_backups (codes "/b") (some listing) (pos 2) (pos 100) latest (λ path. true)).1
    ≡ record { path = latest; modified = 3; size = 60 } ∷ []
unfolding prune_backups flux_pg_cluster.Backup.cap_size flux_pg_cluster.Backup.reverse_onto
    flux_pg_cluster.Backup.sort_newest flux_pg_cluster.Backup.retain_newest
    flux_pg_cluster.Backup.backups_of_entries flux_pg_cluster.Backup.backup_of_entry
    flux_pg_cluster.Text.has_prefix flux_pg_cluster.Text.has_suffix
    flux_pg_cluster.Backup.insert_newest flux_pg_cluster.Backup.total_size
kept_only = refl

-- A dump in two chunks, with the mark across their boundary.
abbrev stream : GzipStream
stream = record {
  chunks = codes "data -- PostgreSQL database du" ∷ codes "mp complete" ∷ [];
  clean = true;
}

gzip_contains-content_example :
    gzip_contains (some stream) dump_complete_mark
    ≡ verdict (contains (content stream.chunks) dump_complete_mark) true
gzip_contains-content_example = gzip_contains-content stream dump_complete_mark (λ e. cc e)

finds_across : gzip_contains (some stream) dump_complete_mark ≡ some true
unfolding gzip_contains flux_pg_cluster.Backup.Dump.scan_chunks contains
    flux_pg_cluster.Backup.Dump.next_carry
finds_across = refl

-- The mark of one database's dump is enough, though the stream breaks off behind it.
accepts_broken : verify_dump (some 200) (some (record stream { clean = false })) ≡ true
unfolding verify_dump gzip_contains flux_pg_cluster.Backup.Dump.scan_chunks contains
    flux_pg_cluster.Backup.Dump.next_carry
accepts_broken = refl

abbrev settings : Settings
settings = record { dir = codes "/b"; interval = pos 60; retain = pos 1; max_bytes = pos 0 }

abbrev attempt : flux_pg_cluster.Backup.Cycle.Surroundings
attempt = record {
  network = λ url. some (record { status = 200; body = [] });
  has_dumpall = true;
  makes_dir = true;
  dumps = true;
  size = some 200;
  stream = some stream;
  renames = true;
  entries = some listing;
  removes = λ path. true;
  timestamp = codes "3";
}

abbrev leader_info : Text → Option NodeInfo
leader_info body = some (record {
  role = codes "master";
  state = codes "running";
  database_system_identifier = codes "7";
})

first_dump :
    Member
      (removed (codes "/b/pgdumpall-1.sql.gz"))
      (run_backup_cycle leader_info config_a settings attempt)
unfolding run_backup_cycle flux_pg_cluster.Backup.Cycle.local_is_healthy_primary
    flux_pg_cluster.Patroni.get_info equal flux_pg_cluster.Backup.Cycle.promote_dump verify_dump
    gzip_contains flux_pg_cluster.Backup.Dump.scan_chunks contains
    flux_pg_cluster.Backup.Dump.next_carry prune_backups flux_pg_cluster.Backup.retain_newest
    flux_pg_cluster.Backup.sort_newest flux_pg_cluster.Backup.backups_of_entries
    flux_pg_cluster.Backup.backup_of_entry flux_pg_cluster.Text.has_suffix
    flux_pg_cluster.Backup.insert_newest flux_pg_cluster.Backup.cap_size
    flux_pg_cluster.Backup.reverse_onto flux_pg_cluster.Backup.total_size
    flux_pg_cluster.Number.itoa flux_pg_cluster.Number.print_nat flux_pg_cluster.Number.to_digits
    flux_pg_cluster.Patroni.new flux_pg_cluster.Patroni.node_url flux_pg_cluster.Text.has_prefix
first_dump = inr (inr (inr (inl refl)))

other_file : codes "/b/pgdumpall-1.sql.gz" ≢ codes "/b/pgdumpall-3.sql.gz.tmp"
other_file e = ground arith

run_backup_cycle-IsBackedUp_example :
    IsBackedUp leader_info config_a settings attempt
    × (codes "/b/pgdumpall-1.sql.gz" ≢ codes "/b/pgdumpall-3.sql.gz")
run_backup_cycle-IsBackedUp_example =
    run_backup_cycle-IsBackedUp leader_info config_a settings attempt
      (codes "/b/pgdumpall-1.sql.gz") first_dump other_file

abbrev environment : Environ
environment key =
    if equal key (codes "BACKUP_ENABLED") then some (codes "true") else some (codes "-5")

clamps :
    backup_settings environment
    ≡ some (record { dir = codes "-5"; interval = pos 60; retain = pos 1; max_bytes = negsuc 4 })
unfolding backup_settings flux_pg_cluster.Backup.Cycle.env_bool_or flux_pg_cluster.Text.to_lower
    flux_pg_cluster.Text.trim_space equal flux_pg_cluster.Config.Env.is_true_word
    flux_pg_cluster.Backup.Cycle.env_str_or flux_pg_cluster.Backup.Cycle.env_int_or
    flux_pg_cluster.Backup.Cycle.env_int64_or flux_pg_cluster.Number.atoi
clamps = refl

backup_settings-bounded_example :
    Pauses (record { dir = codes "-5"; interval = pos 60; retain = pos 1; max_bytes = negsuc 4 })
    × (leb_ℤ (pos 1) (pos 1) ≡ true)
backup_settings-bounded_example = backup_settings-bounded environment _ clamps refl

-- Ten thousand million seconds are more than Go's duration holds: time.Sleep returns at once.
no_pause :
    pause (record { dir = []; interval = pos 10000000000; retain = pos 1; max_bytes = pos 0 })
    ≡ negsuc 8446744073709551615
unfolding pause
no_pause = refl
