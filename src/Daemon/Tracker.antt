-- ===== src/Daemon/Tracker.antt =====
-- `updateStateTracker`: for how many cycles in a row the Flux API has given the same nodes. The
-- file holds the last signature and its count, on a line each.
pub mod Stable
use flux_pg_cluster.Base.{ℕ, Bool, Option, none, some, List, [], ◌∷◌, ◌++◌, if◌then◌else◌}
use flux_pg_cluster.Base.Int.{ℤ, pos, ◌+ℤ◌, leb_ℤ, wrap_int64}
use flux_pg_cluster.Etcd.{split_n, field}
use flux_pg_cluster.Number.{atoi, itoa}
use flux_pg_cluster.Text.{Text, equal}

-- The two results, and the content that is written.
pub record Tracked : Type 0 where
  pub stable : Bool
  pub count : ℤ
  pub content : Text

-- `lastSig` and `count`, as the file gives them.
unfoldable pub read_tracker : Option Text → Text × ℤ
read_tracker none = ([], pos 0)
read_tracker (some content) =
    let lines = split_n 3 (10 ∷ []) content in (field 0 lines, (atoi (field 1 lines)).0)

-- "%s\n%d\n"
abbrev pub print_tracker : Text → ℤ → Text
print_tracker desired count = desired ++ 10 ∷ (itoa count ++ 10 ∷ [])

abbrev pub count_cycle : Text → Text × ℤ → ℤ
count_cycle desired (last_sig, count) =
    if equal desired last_sig then wrap_int64 (count +ℤ pos 1) else pos 1

-- `updateStateTracker`
unfoldable pub update_state_tracker : Option Text → Text → ℤ → Tracked
update_state_tracker file desired threshold =
    let count = count_cycle desired (read_tracker file) in
    record { stable = leb_ℤ threshold count; count = count; content = print_tracker desired count }
