-- ===== src/Config/Quote.antt =====
-- The quoting of passwords in /etc/cluster_env for a POSIX shell, and its decoding.
use flux_pg_cluster.Base.{
  ℕ, ◌≡◌, refl, ◌∙◌, ap, true, inl, inr, [], ◌∷◌, ◌++◌, ◌==◌, arith, Bool-cases,
}
use flux_pg_cluster.Config.File.{
  quoted_apostrophe, shell_quote_value, drop_last, ends_with, decode_shell_value,
}
use flux_pg_cluster.Text.{Text, replace_all}
use flux_pg_cluster.Text.Laws.{replace_all_byte, replace_all_other}

replace_quoted :
    (t : Text)
    → replace_all (39 ∷ 34 ∷ 39 ∷ 34 ∷ 39 ∷ t) quoted_apostrophe (39 ∷ [])
      ≡ 39 ∷ replace_all t quoted_apostrophe (39 ∷ [])
unfolding replace_all
replace_quoted [] = refl
replace_quoted (c ∷ t) = refl

unquote-quote :
    (v : Text)
    → replace_all (replace_all v (39 ∷ []) quoted_apostrophe) quoted_apostrophe (39 ∷ []) ≡ v
unquote-quote [] = unfold replace_all in refl
unquote-quote (c ∷ s) = elim (Bool-cases (c == 39)) [
  | inl quote ↦
      rw (replace_all_byte, quote)
        (replace_quoted (replace_all s (39 ∷ []) quoted_apostrophe)
          ∙ ground (arith, unquote-quote s))
  | inr other ↦
      rw (replace_all_byte, other)
        (replace_all_other c _ 39 _ _ (ground arith) ∙ ap (◌∷◌ c) (unquote-quote s))
]

drop_last-append : (s : Text) (b : ℕ) → drop_last (s ++ b ∷ []) ≡ s
unfolding drop_last
drop_last-append [] b = refl
drop_last-append (c ∷ []) b = refl
drop_last-append (c ∷ d ∷ s) b = ap (◌∷◌ c) (drop_last-append (d ∷ s) b)

ends_with-append : (s : Text) (b : ℕ) → ends_with b (s ++ b ∷ []) ≡ true
unfolding ends_with
ends_with-append [] b = ground arith
ends_with-append (c ∷ []) b = ground arith
ends_with-append (c ∷ d ∷ s) b = ends_with-append (d ∷ s) b

-- Any value, whatever apostrophes it holds, is decoded to itself from its quoted form.
pub decode-quote : (v : Text) → decode_shell_value (shell_quote_value v) ≡ v
unfolding shell_quote_value decode_shell_value
decode-quote v =
    rw (ends_with-append (replace_all v (39 ∷ []) quoted_apostrophe) 39)
      (rw (drop_last-append (replace_all v (39 ∷ []) quoted_apostrophe) 39) (unquote-quote v))
