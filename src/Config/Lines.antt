-- ===== src/Config/Lines.antt =====
-- One line of /etc/cluster_env for each setting: what reading the lines does, one by one.
use flux_pg_cluster.Base.{
  ℕ, ◌≤◌, ◌≡◌, ◌≢◌, refl, ◌∙◌, ap, Bool, true, false, not, ◌&&◌, ◌||◌, List, [], ◌∷◌, ◌++◌, map,
  length, length-append, All, ◌==◌, leb, ltb, arith,
}
use flux_pg_cluster.Config.{Config}
use flux_pg_cluster.Config.File.{
  decode_shell_value, apply_kv, load_line, max_line, scan_lines, entry_line,
}
use flux_pg_cluster.Text.{
  Text, codes, is_empty, is_space, has_prefix, trim_left, trim_right, trim_space,
}
use flux_pg_cluster.Text.Laws.{Lacks, Lacks-append, cut-append}

-- A value that its line gives back: no newline, no space at its end, and short enough to scan.
pub record IsValue (v : Text) : Type 0 where
  pub one_line : Lacks b'\n' v
  pub trimmed : trim_right v ≡ v
  pub short : length v ≤ 65000

abbrev is_key_byte : ℕ → Bool
is_key_byte c = (leb b'A' c && leb c b'Z') || c == b'_'

unfoldable pub every_key_byte : Text → Bool
every_key_byte [] = true
every_key_byte (c ∷ s) = is_key_byte c && every_key_byte s

abbrev is_key : Text → Bool
is_key k = not (is_empty k) && (ltb (length k) 100 && every_key_byte k)

key-Lacks : (b : ℕ) (k : Text) → every_key_byte k ≡ true → is_key_byte b ≡ false → Lacks b k
unfolding every_key_byte
key-Lacks b [] h n = tt
key-Lacks b (c ∷ k) h n = (λ e. ground (arith, e), key-Lacks b k (ground arith) n)

trim_right-append :
    (k : Text) (b : ℕ) (v : Text)
    → every_key_byte k ≡ true
    → is_space b ≡ false
    → trim_right v ≡ v
    → trim_right (k ++ b ∷ v) ≡ k ++ b ∷ v
unfolding every_key_byte trim_right
trim_right-append [] b v h n t = rw (n, t)
trim_right-append (c ∷ k) b v h n t = rw (trim_right-append k b v (ground arith) n t) (ground arith)

trim_space-line :
    (k : Text) (v : Text)
    → is_key k ≡ true
    → trim_right v ≡ v
    → trim_space (k ++ b'=' ∷ v) ≡ k ++ b'=' ∷ v
unfolding trim_space every_key_byte
trim_space-line [] v h t = cc
trim_space-line (c ∷ k) v h t =
    rw (not-space, trim_left) (trim_right-append (c ∷ k) b'=' v (ground arith) refl t)
  where
    not-space : is_space c ≡ false
    not-space = ground arith

has_prefix_hash : (c : ℕ) (s : Text) → c ≢ 35 → has_prefix (c ∷ s) (codes "#") ≡ false
unfolding has_prefix
has_prefix_hash c s h = ground arith

load_line-entry :
    (k v : Text) (c : Config)
    → is_key k ≡ true
    → IsValue v
    → load_line (entry_line (k, v)) c ≡ apply_kv k (decode_shell_value v) c
unfolding load_line every_key_byte
load_line-entry [] v c h i = cc
load_line-entry (x ∷ k) v c h i = rw (trim_space-line (x ∷ k) v h i.trimmed) (
    rw (has_prefix_hash x (k ++ b'=' ∷ v) (λ e. ground (arith, e)))
      (rw (cut-append b'=' (x ∷ k) v (key-Lacks b'=' (x ∷ k) (ground arith) refl)) refl))

abbrev pub IsEntry : Text × Text → Type 0
IsEntry (k, v) = (is_key k ≡ true) × IsValue v

-- What the lines do, one after another.
abbrev pub apply_entries : List (Text × Text) → Config → Config
apply_entries [] c = c
apply_entries ((k, v) ∷ es) c = apply_entries es (apply_kv k (decode_shell_value v) c)

entry_line-short :
    (k v : Text) → is_key k ≡ true → IsValue v → ltb (length (entry_line (k, v))) max_line ≡ true
entry_line-short k v h i = ground (arith, length-append k (b'=' ∷ v), i.short)

scan_lines-cons :
    (line : Text) (rest : List Text) (c : Config)
    → ltb (length line) max_line ≡ true
    → scan_lines (line ∷ rest) c ≡ scan_lines rest (load_line line c)
unfolding scan_lines
scan_lines-cons line rest c h = rw (h, scan_lines) refl

pub scan_lines-entries :
    (es : List (Text × Text)) (c : Config)
    → All IsEntry es
    → scan_lines (map entry_line es ++ [] ∷ []) c ≡ (apply_entries es c, true)
scan_lines-entries [] c h = unfold scan_lines in refl
scan_lines-entries ((k, v) ∷ es) c h =
    scan_lines-cons (entry_line (k, v)) _ c (entry_line-short k v h.0.0 h.0.1)
    ∙ ap (scan_lines (map entry_line es ++ [] ∷ [])) (load_line-entry k v c h.0.0 h.0.1)
    ∙ scan_lines-entries es (apply_kv k (decode_shell_value v) c) h.1

pub entry_line-Lacks :
    (es : List (Text × Text)) → All IsEntry es → All (Lacks b'\n') (map entry_line es)
unfolding every_key_byte
entry_line-Lacks [] h = tt
entry_line-Lacks ((k, v) ∷ es) h = (
  Lacks-append b'\n' k _ (key-Lacks b'\n' k (ground arith) refl)
      ((λ e. ground (arith, e)), h.0.1.one_line),
  entry_line-Lacks es h.1,
)
