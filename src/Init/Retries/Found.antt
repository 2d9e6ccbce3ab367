-- ===== src/Init/Retries/Found.antt =====
-- `discoverClusterIPs` of cmd/flux-agent/init.go ends in time, with growing pauses between known
-- bounds.
use flux_pg_cluster.Base.{
  ℕ, zero, suc, ◌+◌, ◌*◌, ◌≤◌, ◌<◌, ◌≡◌, ◌⊎◌, ap, ◌∙◌, refl, inl, inr, true, false, Option, some,
  List, [], ◌∷◌, All, ltb, arith, ◌||◌, Bool-cases,
}
use flux_pg_cluster.Init.Retries.Ended.{Fails, ends_at, next_attempt, Enough-waited}
use flux_pg_cluster.Init.Retries.{
  second, Retried, waited, is_listed, next_delay, ask_ips, discover_cluster_ips,
}
use flux_pg_cluster.Text.{Text}

-- One to five whole seconds.
abbrev pub IsSeconds : ℕ → Type 0
IsSeconds w = (m : ℕ) × (w ≡ m * second) × 1 ≤ m × m ≤ 5

IsSeconds-least : (w : ℕ) → IsSeconds w → second ≤ w
IsSeconds-least w (m, e, l, u) = omega arith

next_delay-IsSeconds : (w : ℕ) → IsSeconds w → IsSeconds (next_delay w)
next_delay-IsSeconds w (m, e, l, u) = elim (Bool-cases (ltb w (5 * second))) [
  | inl h ↦ rw h (suc m, omega (arith, e), omega arith, below m (e ∙ refl) (ground (arith, h)))
  | inr h ↦ rw h (m, e, l, u)
]
  where
    below : (m : ℕ) → w ≡ m * second → w < 5 * second → suc m ≤ 5
    below m e h = omega arith

-- All attempts before the pauses, from the k-th on, have ended by the deadline.
abbrev pub Early : (ℕ → Option (List Text) × ℕ) → ℕ → ℕ → ℕ → List ℕ → Type 0
Early ask deadline k now [] = Unit
Early ask deadline k now (w ∷ ws) =
    now + (ask k).1 ≤ deadline × Early ask deadline (suc k) (now + (ask k).1 + w) ws

module _ (ask : ℕ → Option (List Text) × ℕ) (deadline : ℕ) where
  -- Every pause is of one to five seconds, all attempts before a pause have given no list of
  -- addresses and have ended by the deadline, and the answer is the one of the attempt after the last pause: a list of addresses,
  -- or what it gave, where it ended past the deadline.
  pub record IsFound (k now : ℕ) (r : Retried (Option (List Text))) : Type 0 where
    pub bounded : All IsSeconds r.waits
    pub failed : Fails ask (λ answer. is_listed answer ≡ false) k r.waits
    pub early : Early ask deadline k now r.waits
    pub told : r.answer ≡ (ask (next_attempt k r.waits)).0
    pub in_time :
        (is_listed r.answer ≡ true)
        ⊎ deadline < ends_at ask k now r.waits + (ask (next_attempt k r.waits)).1

  abbrev Found : ℕ → ℕ → Option (Retried (Option (List Text))) → Type 0
  Found k now o = (r : Retried (Option (List Text))) × (o ≡ some r) × IsFound k now r

  waited-Found :
      (k now w : ℕ) (o : Option (Retried (Option (List Text))))
      → is_listed (ask k).0 ≡ false
      → now + (ask k).1 ≤ deadline
      → IsSeconds w
      → Found (suc k) (now + (ask k).1 + w) o
      → Found k now (waited w o)
  waited-Found k now w o e t h (r, s, q) = (
    _,
    ap (waited w) s,
    record {
      bounded = (h, q.bounded);
      failed = (e, q.failed);
      early = (t, q.early);
      told = q.told;
      in_time = q.in_time;
    },
  )

  left-Found :
      (k now : ℕ)
      → ((is_listed (ask k).0 || ltb deadline (now + (ask k).1)) ≡ true)
      → Found k now (some (record { answer = (ask k).0; waits = [] }))
  left-Found k now e = (
    _,
    refl,
    record { bounded = tt; failed = tt; early = tt; told = refl; in_time = ground arith },
  )

  ask_ips-step :
      (n k delay now : ℕ)
      → IsSeconds delay
      → (ltb deadline (now + (ask k).1) ≡ false
          → Found
              (suc k)
              (now + (ask k).1 + delay)
              (ask_ips n ask deadline (suc k) (next_delay delay) (now + (ask k).1 + delay)))
      → Found k now (ask_ips (suc n) ask deadline k delay now)
  unfolding ask_ips
  ask_ips-step n k delay now w more =
      elim (Bool-cases (is_listed (ask k).0 || ltb deadline (now + (ask k).1))) [
        | inl e ↦ rw (ask_ips, e) (left-Found k now e)
        | inr e ↦
            rw (ask_ips, e)
              (waited-Found k now delay _ (ground (arith, e)) (ground (arith, e)) w
                (more (ground (arith, e))))
      ]

  ask_ips-Found :
      (n k delay now : ℕ)
      → deadline < now + n * second
      → IsSeconds delay
      → Found k now (ask_ips (suc n) ask deadline k delay now)
  ask_ips-Found zero k delay now enough w =
      ask_ips-step zero k delay now w (λ f. absurd (ground arith))
  ask_ips-Found (suc n) k delay now enough w = ask_ips-step (suc n) k delay now w (λ f.
      ask_ips-Found n (suc k) (next_delay delay) (now + (ask k).1 + delay)
        (Enough-waited n (suc deadline) second now (ask k).1 delay (IsSeconds-least delay w) enough)
        (next_delay-IsSeconds delay w))

-- Sixty-two attempts are enough: asking for the cluster's addresses ends, with the first list of
-- addresses that an attempt gives, or with the answer of the first attempt to end later than a
-- minute after the start. All pauses are of one to five whole seconds.
pub discover_cluster_ips-IsFound :
    (n : ℕ) (ask : ℕ → Option (List Text) × ℕ)
    → 60 < n
    → (r : Retried (Option (List Text))) × (discover_cluster_ips (suc n) ask ≡ some r)
      × IsFound ask (60 * second) 0 0 r
unfolding discover_cluster_ips
discover_cluster_ips-IsFound n ask enough =
    ask_ips-Found ask (60 * second) n 0 second 0 (omega arith)
      (1, omega arith, omega arith, omega arith)
