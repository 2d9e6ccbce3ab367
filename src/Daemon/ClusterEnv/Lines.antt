-- ===== src/Daemon/ClusterEnv/Lines.antt =====
-- Rewriting the lines of hosts in patroni.yml.
use flux_pg_cluster.Base.{
  ℕ, ◌≡◌, ◌≢◌, refl, sym, subst, inl, inr, true, false, List, [], ◌∷◌, ◌==◌, map, All, Bool-cases,
  arith,
}
use flux_pg_cluster.Daemon.ClusterEnv.{hosts_line, is_hosts_line, rewrite_line, rewrite_yml}
use flux_pg_cluster.Text.{Text, codes, split}
use flux_pg_cluster.Text.Laws.{Lacks, Lacks-append, split-join}

-- Every line of hosts names these hosts.
abbrev pub NamesHosts : Text → Text → Type 0
NamesHosts hosts content =
    All (λ line. is_hosts_line line ≡ true → line ≡ hosts_line hosts) (split 10 content)

differs : (c b : ℕ) → (c == b) ≡ false → c ≢ b
differs c b h e = ground arith

-- A split always has a first piece, and no piece has the separator.
split-pieces :
    (b : ℕ) (s : Text)
    → (x : Text) × (xs : List Text) × (split b s ≡ x ∷ xs) × All (Lacks b) (x ∷ xs)
unfolding split
split-pieces b [] = ([], [], refl, (tt, tt))
split-pieces b (c ∷ s) =
    let (x, xs, e, h) = split-pieces b s in
    elim (Bool-cases (c == b)) [
      | inl same ↦ rw (same, e) ([], x ∷ xs, refl, (tt, h))
      | inr other ↦ rw (other, e) (c ∷ x, xs, refl, ((λ q. differs c b other q, h.0), h.1))
    ]

rewrite_line-names :
    (hosts line : Text)
    → is_hosts_line (rewrite_line hosts line) ≡ true
    → rewrite_line hosts line ≡ hosts_line hosts
unfolding rewrite_line
rewrite_line-names hosts line h = elim (Bool-cases (is_hosts_line line)) [
  | inl named ↦ rw named refl
  | inr other ↦ absurd (no_lem line other (rw other at h))
]
  where
    no_lem : (l : Text) → is_hosts_line l ≡ false → is_hosts_line l ≡ true → ⊥
    no_lem l n y = cc (n, y)

rewrite_line-Lacks :
    (hosts line : Text) → Lacks 10 hosts → Lacks 10 line → Lacks 10 (rewrite_line hosts line)
unfolding rewrite_line
rewrite_line-Lacks hosts line h k = elim (Bool-cases (is_hosts_line line)) [
  | inl named ↦ rw named (Lacks-append 10 (codes "  hosts: ") hosts (omega arith) h)
  | inr other ↦ rw other k
]

rewritten-Lacks :
    (hosts : Text) (lines : List Text)
    → Lacks 10 hosts
    → All (Lacks 10) lines
    → All (Lacks 10) (map (rewrite_line hosts) lines)
rewritten-Lacks hosts [] h k = tt
rewritten-Lacks hosts (l ∷ lines) h k =
    (rewrite_line-Lacks hosts l h k.0, rewritten-Lacks hosts lines h k.1)

rewritten-names :
    (hosts : Text) (lines : List Text)
    → All
        (λ line. is_hosts_line line ≡ true → line ≡ hosts_line hosts)
        (map (rewrite_line hosts) lines)
rewritten-names hosts [] = tt
rewritten-names hosts (l ∷ lines) = (rewrite_line-names hosts l, rewritten-names hosts lines)

-- The rewriting goes line by line.
rewrite_yml-lines :
    (hosts content : Text)
    → Lacks 10 hosts
    → split 10 (rewrite_yml hosts content) ≡ map (rewrite_line hosts) (split 10 content)
unfolding rewrite_yml
rewrite_yml-lines hosts content h =
    let (x, xs, e, k) = split-pieces 10 content in
    rw e (
      split-join 10 (rewrite_line hosts x) (map (rewrite_line hosts) xs)
        (rewritten-Lacks hosts (x ∷ xs) h k))

pub rewrite_yml-NamesHosts :
    (hosts content : Text) → Lacks 10 hosts → NamesHosts hosts (rewrite_yml hosts content)
rewrite_yml-NamesHosts hosts content h =
    subst (All (λ line. is_hosts_line line ≡ true → line ≡ hosts_line hosts))
      (sym (rewrite_yml-lines hosts content h)) (rewritten-names hosts (split 10 content))
