-- ===== src/Config/Values.antt =====
-- The values in /etc/cluster_env: numbers, Booleans and passwords, and what reading makes of them.
use flux_pg_cluster.Base.{
  ℕ, ◌≤◌, ◌≡◌, ◌≢◌, refl, ◌∙◌, ap, Bool, true, false, inl, inr, [], ◌∷◌, ◌++◌, length, All, ◌==◌,
  arith, Bool-cases,
}
use flux_pg_cluster.Base.Int.{ℤ, FitsInt64}
use flux_pg_cluster.Config.File.{
  quoted_apostrophe, shell_quote_value, decode_shell_value, format_bool,
}
use flux_pg_cluster.Number.{atoi, itoa}
use flux_pg_cluster.Number.Laws.{atoi-itoa, itoa-All, length-itoa}
use flux_pg_cluster.Text.{Text, codes, equal_fold, is_space, replace_all, trim_right}
use flux_pg_cluster.Text.Laws.{Lacks, Lacks-append, replace_all_byte, NoSpace-trim_right}
use flux_pg_cluster.Config.Lines.{IsValue}

decode_other : (c : ℕ) (s : Text) → c ≢ 39 → decode_shell_value (c ∷ s) ≡ c ∷ s
unfolding decode_shell_value
decode_other c s h = ground arith

decode_digits : (s : Text) → All (λ c. c ≢ 39) s → decode_shell_value s ≡ s
decode_digits [] h = unfold decode_shell_value in refl
decode_digits (c ∷ s) h = decode_other c s h.0

decode-itoa : (z : ℤ) → decode_shell_value (itoa z) ≡ itoa z
decode-itoa z = decode_digits (itoa z) (itoa-All (λ c. c ≢ 39) (omega arith) (λ c d. omega arith) z)

-- The value of a setting that is a number, as its line gives it.
pub atoi-decode : (z : ℤ) → FitsInt64 z → (atoi (decode_shell_value (itoa z))).0 ≡ z
atoi-decode z h = ap (λ v. (atoi v).0) (decode-itoa z) ∙ ap (λ r. r.0) (atoi-itoa z h)

pub equal_fold-decode :
    (b : Bool) → equal_fold (decode_shell_value (format_bool b)) (codes "true") ≡ b
unfolding equal_fold decode_shell_value
equal_fold-decode true = refl
equal_fold-decode false = refl

pub format_bool-IsValue : (b : Bool) → IsValue (format_bool b)
unfolding trim_right
format_bool-IsValue true = ground arith
format_bool-IsValue false = ground arith

pub itoa-IsValue : (z : ℤ) → FitsInt64 z → IsValue (itoa z)
itoa-IsValue z h = record {
  one_line = itoa-All (λ c. c ≢ b'\n') (omega arith) (λ c d. omega arith) z;
  trimmed = NoSpace-trim_right (itoa z) (itoa-All (λ c. is_space c ≡ false) refl (λ c d. d.0) z);
  short = omega (arith, length-itoa z h);
}

-- A password may hold anything but a newline.
pub record IsPassword (v : Text) : Type 0 where
  pub one_line : Lacks b'\n' v
  pub short : length (shell_quote_value v) ≤ 65000

replace-Lacks : (v : Text) → Lacks b'\n' v → Lacks b'\n' (replace_all v (39 ∷ []) quoted_apostrophe)
replace-Lacks [] h = unfold replace_all in tt
replace-Lacks (c ∷ s) h = elim (Bool-cases (c == 39)) [
  | inl quote ↦
      rw (replace_all_byte, quote)
        (Lacks-append b'\n' quoted_apostrophe _ (omega arith) (replace-Lacks s h.1))
  | inr other ↦ rw (replace_all_byte, other) (h.0, replace-Lacks s h.1)
]

trim_right-concat : (s : Text) (b : ℕ) → is_space b ≡ false → trim_right (s ++ b ∷ []) ≡ s ++ b ∷ []
unfolding trim_right
trim_right-concat [] b h = rw h
trim_right-concat (c ∷ []) b h = rw (h, trim_right) (ground arith)
trim_right-concat (c ∷ d ∷ s) b h = rw (trim_right-concat (d ∷ s) b h) (ground arith)

pub quote-IsValue : (v : Text) → IsPassword v → IsValue (shell_quote_value v)
unfolding shell_quote_value
quote-IsValue v h = record {
  one_line = (omega arith, Lacks-append b'\n' _ _ (replace-Lacks v h.one_line) (omega arith, tt));
  trimmed = trim_right-concat (39 ∷ replace_all v (39 ∷ []) quoted_apostrophe) 39 refl;
  short = h.short;
}
