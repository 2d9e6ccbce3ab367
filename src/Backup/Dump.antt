-- ===== src/Backup/Dump.antt =====
-- cmd/flux-agent/backup.go: the integrity check of a dump. A compressed file is the chunks that the
-- reader delivers, and whether it then ends cleanly.
pub mod Chunks
use flux_pg_cluster.Base.{
  ℕ, ◌-◌, Bool, true, false, not, ◌&&◌, Option, none, some, List, [], ◌∷◌, ◌++◌, length, drop, ltb,
  if◌then◌else◌,
}
use flux_pg_cluster.Text.{Text, codes, contains, is_empty}

pub record GzipStream : Type 0 where
  pub chunks : List Text
  pub clean : Bool

-- The tail that is carried over to the next chunk.
unfoldable pub next_carry : Text → Text → Text
next_carry needle hay =
    let keep = length needle - 1 in
    if ltb 0 keep && ltb keep (length hay) then drop (length hay - keep) hay else hay

-- The loop of `gzipContains`: none is a read error.
unfoldable pub scan_chunks : Text → Text → List Text → Bool → Option Bool
scan_chunks needle carry [] clean = if clean then some false else none
scan_chunks needle carry (chunk ∷ chunks) clean =
    let unread = scan_chunks needle carry chunks clean in
    let rest = scan_chunks needle (next_carry needle (carry ++ chunk)) chunks clean in
    if is_empty chunk then unread else if contains (carry ++ chunk) needle then some true else rest

-- `gzipContains`, of a file that can be opened as a gzip stream.
unfoldable pub gzip_contains : Option GzipStream → Text → Option Bool
gzip_contains none needle = none
gzip_contains (some s) needle = scan_chunks needle [] s.chunks s.clean

-- `dumpCompleteMark`
abbrev pub dump_complete_mark : Text
dump_complete_mark = codes "PostgreSQL database dump complete"

abbrev pub is_found : Option Bool → Bool
is_found (some true) = true
is_found _ = false

-- `verifyDump`, with the size on disk, where the file is there; whether its error is nil.
unfoldable pub verify_dump : Option ℕ → Option GzipStream → Bool
verify_dump none stream = false
verify_dump (some size) stream =
    if ltb size 100 then false else is_found (gzip_contains stream dump_complete_mark)
