-- ===== src/Daemon/Tracker/Stable.antt =====
-- The tracker's file is a faithful memory: the count is the length of the run of equal signatures
-- that ends with the present cycle.
use flux_pg_cluster.Base.{
  ℕ, zero, suc, ◌≤◌, ◌<◌, ◌^◌, ◌≡◌, ◌↔◌, refl, sym, ap, ◌∙◌, true, false, Option, none, some, List,
  [], ◌∷◌, ◌++◌, All, All-map, length, arith, if◌then◌else◌, Bool-cases, inl, inr,
}
use flux_pg_cluster.Base.Int.{ℤ, pos, ◌+ℤ◌, wrap_int64, FitsInt64}
use flux_pg_cluster.Daemon.Tracker.{read_tracker, print_tracker, count_cycle, update_state_tracker}
use flux_pg_cluster.Etcd.{cut_text, split_n, field}
use flux_pg_cluster.Number.{itoa}
use flux_pg_cluster.Number.Laws.{itoa-All, atoi-itoa}
use flux_pg_cluster.Text.{Text, equal, has_prefix, is_space}
use flux_pg_cluster.Text.Laws.{Lacks, NoSpace, NoSpace-IsTrimmed, equal_iff}

NoSpace-Lacks : (s : Text) → NoSpace s → Lacks 10 s
NoSpace-Lacks = All-map (λ c e. ground arith)

cut_line : (s t : Text) → Lacks 10 s → cut_text (10 ∷ []) (s ++ 10 ∷ t) ≡ some (s, t)
unfolding cut_text has_prefix
cut_line [] t h = refl
cut_line (c ∷ s) t h = let rest = cut_line s t h.1 in ground (arith, rest)

itoa-NoSpace : (z : ℤ) → NoSpace (itoa z)
itoa-NoSpace = itoa-All (λ c. is_space c ≡ false) refl (λ c h. h.0)

split-line :
    (n : ℕ) (a b : Text)
    → Lacks 10 a
    → split_n (suc (suc n)) (10 ∷ []) (a ++ 10 ∷ b) ≡ a ∷ split_n (suc n) (10 ∷ []) b
unfolding split_n
split-line n a b h = rw (cut_line a b h, split_n) refl

lines-print :
    (s : Text) (z : ℤ) → NoSpace s → split_n 3 (10 ∷ []) (print_tracker s z) ≡ s ∷ itoa z ∷ [] ∷ []
lines-print s z h =
    split-line 1 s (itoa z ++ 10 ∷ []) (NoSpace-Lacks s h)
    ∙ ap (◌∷◌ s)
        (split-line 0 (itoa z) [] (NoSpace-Lacks (itoa z) (itoa-NoSpace z)) ∙ split_one (itoa z))
  where
    split_one : (t : Text) → t ∷ split_n 1 (10 ∷ []) [] ≡ t ∷ [] ∷ []
    split_one t = unfold split_n in refl

-- What is written is read back.
read-print :
    (s : Text) (z : ℤ) → NoSpace s → FitsInt64 z → read_tracker (some (print_tracker s z)) ≡ (s, z)
unfolding read_tracker field
read-print s z h k =
    rw
      (
        lines-print s z h,
        NoSpace-IsTrimmed s h,
        NoSpace-IsTrimmed (itoa z) (itoa-NoSpace z),
        atoi-itoa z k,
      )
      refl

-- The file after a history of signatures, the newest first.
abbrev pub tracked_file : ℤ → List Text → Option Text
tracked_file threshold [] = none
tracked_file threshold (s ∷ older) =
    some (update_state_tracker (tracked_file threshold older) s threshold).content

-- How many of the newest signatures are `s`.
unfoldable pub streak : Text → List Text → ℕ
streak s [] = 0
streak s (x ∷ older) = let rest = streak s older in if equal s x then suc rest else 0

streak-le : (s : Text) (older : List Text) → streak s older ≤ length older
unfolding streak
streak-le s [] = omega arith
streak-le s (x ∷ older) = let rest = streak-le s older in ground (arith, rest)

wrap-next : (n : ℕ) → suc (suc n) ≤ 2 ^ 63 → wrap_int64 (pos n +ℤ pos 1) ≡ pos (suc n)
unfolding wrap_int64 ◌+ℤ◌
wrap-next n h = ground arith

-- Go's int counts the history.
abbrev pub IsShort : List Text → Type 0
IsShort older = suc (length older) < 2 ^ 63

-- One more cycle, after a run of `n`.
count-next :
    (s x : Text) (older : List Text)
    → IsShort (x ∷ older)
    → count_cycle s (x, pos (suc (streak x older))) ≡ pos (suc (streak s (x ∷ older)))
unfolding streak
count-next s x older h = elim (Bool-cases (equal s x)) [
  | inl e ↦ rw e (
      wrap-next (suc (streak x older)) (omega (arith, streak-le x older))
      ∙ ap (λ y. pos (suc (suc (streak y older)))) (sym ((equal_iff s x).0 e)))
  | inr e ↦ rw e refl
]

-- The count of the cycle that brings the signature `s`, after the older ones.
abbrev count_after : ℤ → Text → List Text → ℤ
count_after threshold s older =
    (update_state_tracker (tracked_file threshold older) s threshold).count

count_first : (s : Text) → count_cycle s (read_tracker none) ≡ pos (suc (streak s []))
unfolding read_tracker streak wrap_int64 ◌+ℤ◌
count_first s = ground arith

count_after_lem :
    (threshold : ℤ) (s : Text) (older : List Text)
    → All NoSpace (s ∷ older)
    → IsShort older
    → count_after threshold s older ≡ pos (suc (streak s older))
unfolding update_state_tracker
count_after_lem threshold s [] h k = count_first s
count_after_lem threshold s (x ∷ older) h k =
    let c = count_after_lem threshold x older h.1 (omega (arith, k)) in
    ap (λ z. count_cycle s (read_tracker (some (print_tracker x z)))) c
    ∙ ap (count_cycle s)
        (read-print x (pos (suc (streak x older))) h.1.0 (omega (arith, k, streak-le x older)))
    ∙ count-next s x older k

-- The last `k` signatures before the present one were there, and were all `s`.
unfoldable pub Repeated : ℕ → Text → List Text → Type 0
Repeated zero s older = Unit
Repeated (suc k) s [] = ⊥
Repeated (suc k) s (x ∷ older) = (x ≡ s) × Repeated k s older

streak-Repeated : (k : ℕ) (s : Text) (older : List Text) → (k ≤ streak s older) ↔ Repeated k s older
unfolding streak Repeated
streak-Repeated zero s older = (λ h. tt, λ h. omega arith)
streak-Repeated (suc k) s [] = ground arith
streak-Repeated (suc k) s (x ∷ older) =
    let rest = streak-Repeated k s older in
    elim (Bool-cases (equal s x)) [
      | inl e ↦ rw e (
          (
            λ h. (sym ((equal_iff s x).0 e), rest.0 (omega (arith, h))),
            λ h. omega (arith, rest.1 h.1),
          ))
      | inr e ↦
          rw e ((λ h. absurd (omega (arith, h)), λ h. absurd (cc (e, (equal_iff s x).1 (sym h.0)))))
    ]

-- Over any history of signatures free of white space, and shorter than Go's int counts, the nodes
-- are called stable in a cycle exactly where the signature has stood unchanged in as many cycles
-- as the threshold asks for, the present one included.
pub update_state_tracker-Repeated :
    (k : ℕ) (s : Text) (older : List Text)
    → All NoSpace (s ∷ older)
    → IsShort older
    → ((update_state_tracker (tracked_file (pos (suc k)) older) s (pos (suc k))).stable ≡ true)
      ↔ Repeated k s older
unfolding update_state_tracker
update_state_tracker-Repeated k s older h short =
    let c = count_after_lem (pos (suc k)) s older h short in
    let r = streak-Repeated k s older in rw c (ground (arith, r))
