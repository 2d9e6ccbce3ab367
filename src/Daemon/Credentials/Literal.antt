-- ===== src/Daemon/Credentials/Literal.antt =====
-- A password reaches PostgreSQL as it is, whatever it holds.
use mathlib.Core.List.{append_assoc}
use flux_pg_cluster.Base.{
  ℕ, ◌≡◌, ◌≢◌, refl, sym, ap, ◌∙◌, Bool, true, false, Option, none, some, [], ◌∷◌, ◌++◌, ◌==◌,
  Bool-cases, inl, inr, arith, if◌then◌else◌,
}
use flux_pg_cluster.Config.{Config}
use flux_pg_cluster.Daemon.Credentials.{
  sql_literal, sql_start, sql_middle, sql_end, postgres_credential_sql,
}
use flux_pg_cluster.Text.{Text, codes, keep_before, replace_all}
use flux_pg_cluster.Text.Laws.{replace_all_byte}

-- How SQL reads a literal: up to an apostrophe that is not doubled. The flag tells that an
-- apostrophe has been read, whose meaning the next byte decides.
unfoldable pub read_quoted : Bool → Text → Option (Text × Text)
read_quoted false [] = none
read_quoted true [] = some ([], [])
read_quoted false (c ∷ s) =
    if c == 39 then read_quoted true s else keep_before c (read_quoted false s)
read_quoted true (c ∷ s) =
    let rest = read_quoted false s in if c == 39 then keep_before 39 rest else some ([], c ∷ s)

-- The value of the literal that a text begins with, and what follows it.
unfoldable pub read_literal : Text → Option (Text × Text)
read_literal [] = none
read_literal (c ∷ s) = let rest = read_quoted false s in if c == 39 then rest else none

-- A text that does not go on with an apostrophe.
abbrev pub Ends : Text → Type 0
Ends [] = Unit
Ends (c ∷ s) = c ≢ 39

read_end : (rest : Text) → Ends rest → read_quoted false (39 ∷ rest) ≡ some ([], rest)
unfolding read_quoted
read_end [] h = refl
read_end (c ∷ s) h = ground arith

read_twice : (s : Text) → read_quoted false (39 ∷ 39 ∷ s) ≡ keep_before 39 (read_quoted false s)
unfolding read_quoted
read_twice s = refl

read_other :
    (c : ℕ) (s : Text)
    → (c == 39) ≡ false
    → read_quoted false (c ∷ s) ≡ keep_before c (read_quoted false s)
unfolding read_quoted
read_other c s h = rw h refl

is_quote : (c : ℕ) → (c == 39) ≡ true → c ≡ 39
is_quote c h = ground arith

doubled : Text → Text
doubled v = replace_all v (codes "'") (codes "''")

read-doubled :
    (v rest : Text) → Ends rest → read_quoted false (doubled v ++ 39 ∷ rest) ≡ some (v, rest)
unfolding doubled
read-doubled [] rest h = unfold replace_all in read_end rest h
read-doubled (c ∷ v) rest h =
    let later = read-doubled v rest h in
    elim (Bool-cases (c == 39)) [
      | inl quote ↦
          rw (replace_all_byte c v 39 (codes "''"), quote)
            (read_twice (doubled v ++ 39 ∷ rest)
              ∙ ap (keep_before 39) later
              ∙ ap (λ b. some (b ∷ v, rest)) (sym (is_quote c quote)))
      | inr other ↦
          rw (replace_all_byte c v 39 (codes "''"), other)
            (read_other c (doubled v ++ 39 ∷ rest) other ∙ ap (keep_before c) later)
    ]

-- SQL reads the literal back as the value, whatever the value holds, where what follows does not
-- go on with an apostrophe.
read_literal_lem :
    (v rest : Text) → Ends rest → read_literal (sql_literal v ++ rest) ≡ some (v, rest)
unfolding read_literal sql_literal doubled
read_literal_lem v rest h =
    ap (read_quoted false) (append_assoc (doubled v) (codes "'") rest) ∙ read-doubled v rest h

-- The two passwords in the statements are read back as they are, and the statements end where
-- they should, whatever the passwords hold.
pub postgres_credential_sql-literals :
    (cfg : Config)
    → (after : Text) × (postgres_credential_sql cfg ≡ sql_start ++ after)
      × (later : Text) × (read_literal after
          ≡ some (cfg.postgres_replication_password, sql_middle ++ later))
      × (read_literal later ≡ some (cfg.postgres_superuser_password, sql_end))
unfolding postgres_credential_sql
postgres_credential_sql-literals cfg =
    let later = sql_literal cfg.postgres_superuser_password ++ sql_end in
    (
      sql_literal cfg.postgres_replication_password ++ (sql_middle ++ later),
      refl,
      later,
      read_literal_lem cfg.postgres_replication_password (sql_middle ++ later) (λ e. cc e),
      read_literal_lem cfg.postgres_superuser_password sql_end (λ e. cc e),
    )
