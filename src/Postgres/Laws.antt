-- ===== src/Postgres/Laws.antt =====
-- Positions are read back from their text, and recovery takes the furthest durable one.
use flux_pg_cluster.Base.{
  ℕ, ◌/◌, ◌%◌, ◌^◌, ◌<◌, ◌≤◌, ◌≡◌, ◌≢◌, ◌⊎◌, refl, ap, ◌∙◌, false, Option, none, some, [], ◌∷◌,
  arith, All, All-append, All-map,
}
use flux_pg_cluster.Number.{parse_uint, print_hex}
use flux_pg_cluster.Number.Laws.{parse_uint-print_hex, print_hex-IsPlainDigit}
use flux_pg_cluster.Postgres.{
  PostgresControlData, PostgresRecoveryPosition, join_halves, lsn_of_parts, parse_postgres_lsn,
  format_postgres_lsn, recovery_position,
}
use flux_pg_cluster.Text.{split, is_space}
use flux_pg_cluster.Text.Laws.{split-append, split_of_Lacks, NoSpace-IsTrimmed}

format-NoSpace : (n : ℕ) → All (λ c. is_space c ≡ false) (format_postgres_lsn n)
unfolding format_postgres_lsn
format-NoSpace n =
    All-append (λ c. is_space c ≡ false) (print_hex (n / 2 ^ 32)) _
      (All-map (λ c d. d.0) _ (print_hex-IsPlainDigit (n / 2 ^ 32)))
      (refl, All-map (λ c d. d.0) _ (print_hex-IsPlainDigit (n % 2 ^ 32)))

split_format :
    (n : ℕ)
    → split b'/' (format_postgres_lsn n) ≡ print_hex (n / 2 ^ 32) ∷ print_hex (n % 2 ^ 32) ∷ []
unfolding format_postgres_lsn
split_format n =
    split-append b'/' (print_hex (n / 2 ^ 32)) _
      (All-map (λ c d. d.3) _ (print_hex-IsPlainDigit (n / 2 ^ 32)))
    ∙ ap (◌∷◌ (print_hex (n / 2 ^ 32))) (
        split_of_Lacks b'/' (print_hex (n % 2 ^ 32))
          (All-map (λ c d. d.3) _ (print_hex-IsPlainDigit (n % 2 ^ 32))))

-- Every 64-bit position is read back from the text that is printed of it.
pub parse-format : (n : ℕ) → n < 2 ^ 64 → parse_postgres_lsn (format_postgres_lsn n) ≡ some n
unfolding parse_postgres_lsn
parse-format n h =
    ap (λ s. lsn_of_parts (split b'/' s)) (NoSpace-IsTrimmed _ (format-NoSpace n))
    ∙ ap lsn_of_parts (split_format n)
    ∙ halves
  where
    halves :
        join_halves
          (parse_uint (print_hex (n / 2 ^ 32)) 16 32)
          (parse_uint (print_hex (n % 2 ^ 32)) 16 32)
        ≡ some n
    halves =
        rw
          (
            parse_uint-print_hex (n / 2 ^ 32) 32 (ground arith),
            parse_uint-print_hex (n % 2 ^ 32) 32 (ground arith),
          )
          (ap some (omega arith))

-- A timeline with a parsed LSN is a durable position.
abbrev pub IsDurable : ℕ → Option ℕ → ℕ → Type 0
IsDurable timeline parsed lsn = (timeline ≢ 0) × (parsed ≡ some lsn) × (lsn ≢ 0)

-- One position is at or behind another: by timeline first, then by LSN.
abbrev pub AtMost : ℕ → ℕ → PostgresRecoveryPosition → Type 0
AtMost timeline lsn p = (timeline < p.timeline) ⊎ ((timeline ≡ p.timeline) × (lsn ≤ p.lsn))

-- A position is the furthest durable one of the control data.
pub record IsFurthest (c : PostgresControlData) (p : PostgresRecoveryPosition) : Type 0 where
  pub stands :
      ((p.timeline ≡ c.checkpoint_timeline)
        × IsDurable c.checkpoint_timeline (parse_postgres_lsn c.checkpoint_lsn) p.lsn)
      ⊎ ((p.timeline ≡ c.minimum_recovery_timeline)
          × IsDurable c.minimum_recovery_timeline (parse_postgres_lsn c.minimum_recovery_lsn) p.lsn)
  pub past_checkpoint :
      (lsn : ℕ)
      → IsDurable c.checkpoint_timeline (parse_postgres_lsn c.checkpoint_lsn) lsn
      → AtMost c.checkpoint_timeline lsn p
  pub past_minimum :
      (lsn : ℕ)
      → IsDurable c.minimum_recovery_timeline (parse_postgres_lsn c.minimum_recovery_lsn) lsn
      → AtMost c.minimum_recovery_timeline lsn p

-- The position that `recoveryPosition` reports is one of the two in the control data, both parts
-- of it count, and neither durable position of the control data is ahead of it.
pub recovery_position-IsFurthest :
    (c : PostgresControlData) {p : PostgresRecoveryPosition}
    → recovery_position c ≡ some p
    → IsFurthest c p
unfolding recovery_position
recovery_position-IsFurthest c e = record {
  stands = ground arith;
  past_checkpoint = λ lsn d. ground arith;
  past_minimum = λ lsn d. ground arith;
}

-- Where `recoveryPosition` reports no position, neither one in the control data is durable.
pub recovery_position-none :
    (c : PostgresControlData)
    → recovery_position c ≡ none
    → (lsn : ℕ)
    → (¬ IsDurable c.checkpoint_timeline (parse_postgres_lsn c.checkpoint_lsn) lsn)
      × (¬ IsDurable c.minimum_recovery_timeline (parse_postgres_lsn c.minimum_recovery_lsn) lsn)
unfolding recovery_position
recovery_position-none c e lsn = (λ d. ground arith, λ d. ground arith)
