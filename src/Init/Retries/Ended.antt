-- ===== src/Init/Retries/Ended.antt =====
-- `discoverHostInfoAppName` ends in time, with growing pauses between known bounds.
use flux_pg_cluster.Base.{
  ℕ, zero, suc, ◌+◌, ◌*◌, ◌≤◌, ◌≡◌, ◌⊎◌, ◌≢◌, ap, refl, inl, inr, Bool, true, false, Option, some,
  List, [], ◌∷◌, All, leb, arith, Bool-cases,
}
use flux_pg_cluster.Init.Retries.{
  Retried, waited, longer, ask_app_name, first_delay, last_delay, discover_host_info_app_name,
}
use flux_pg_cluster.Text.{Text, is_empty}
use flux_pg_cluster.Text.Laws.{is_empty_iff}

-- All attempts before the pauses, from the k-th on, have given a bad answer.
abbrev pub Fails {ℓ} : {A : Type ℓ} → (ℕ → A × ℕ) → (A → Type ℓ) → ℕ → List ℕ → Type ℓ
Fails f Bad k [] = Unit
Fails f Bad k (w ∷ ws) = Bad (f k).0 × Fails f Bad (suc k) ws

-- When the attempts before the pauses, from the k-th on, and the pauses are over.
abbrev pub ends_at {ℓ} : {A : Type ℓ} → (ℕ → A × ℕ) → ℕ → ℕ → List ℕ → ℕ
ends_at f k now [] = now
ends_at f k now (w ∷ ws) = ends_at f (suc k) (now + (f k).1 + w) ws

-- The attempt after the pauses.
abbrev pub next_attempt : ℕ → List ℕ → ℕ
next_attempt k [] = k
next_attempt k (w ∷ ws) = next_attempt (suc k) ws

abbrev pub Within : ℕ → ℕ → ℕ → Type 0
Within low high w = low ≤ w × w ≤ high

-- Every pause is within the bounds, and all attempts before a pause have given no name. The answer
-- is the name that the attempt after the last pause has given; or it is empty, and the time was
-- over with the last pause.
pub record IsAsked (probe : ℕ → Text × ℕ) (deadline low high k now : ℕ) (r : Retried Text)
    : Type 0 where
  pub bounded : All (Within low high) r.waits
  pub failed : Fails probe (λ name. name ≡ []) k r.waits
  pub told :
      (r.answer ≢ [] × (r.answer ≡ (probe (next_attempt k r.waits)).0))
      ⊎ ((r.answer ≡ []) × deadline ≤ ends_at probe k now r.waits)

longer-Within : (low high delay : ℕ) → Within low high delay → Within low high (longer high delay)
longer-Within low high delay h = ground arith

-- One more pause, before the others.
IsAsked-waited :
    (probe : ℕ → Text × ℕ) (deadline low high k now w : ℕ) (r : Retried Text)
    → (probe k).0 ≡ []
    → Within low high w
    → IsAsked probe deadline low high (suc k) (now + (probe k).1 + w) r
    → IsAsked probe deadline low high k now (record { answer = r.answer; waits = w ∷ r.waits })
IsAsked-waited probe deadline low high k now w r e h q = record {
  bounded = (h, q.bounded);
  failed = (e, q.failed);
  told = q.told;
}

-- The loop's time suffices for `n` pauses, of at least `low`.
abbrev pub Enough : ℕ → ℕ → ℕ → ℕ → Type 0
Enough n deadline low now = deadline ≤ now + n * low

pub Enough-waited :
    (n deadline low now d w : ℕ)
    → low ≤ w
    → Enough (suc n) deadline low now
    → Enough n deadline low (now + d + w)
Enough-waited n deadline low now d w h e = omega arith

module _ (probe : ℕ → Text × ℕ) (deadline low high : ℕ) where
  abbrev Ended : ℕ → ℕ → Option (Retried Text) → Type 0
  Ended k now o = (r : Retried Text) × (o ≡ some r) × IsAsked probe deadline low high k now r

  waited-Ended :
      (k now w : ℕ) (o : Option (Retried Text))
      → (probe k).0 ≡ []
      → Within low high w
      → Ended (suc k) (now + (probe k).1 + w) o
      → Ended k now (waited w o)
  waited-Ended k now w o e h (r, s, q) =
      (_, ap (waited w) s, IsAsked-waited probe deadline low high k now w r e h q)

  named-Ended :
      (k now : ℕ)
      → (probe k).0 ≢ []
      → Ended k now (some (record { answer = (probe k).0; waits = [] }))
  named-Ended k now h = (_, refl, record { bounded = tt; failed = tt; told = inl (h, refl) })

  over-Ended :
      (k now w : ℕ)
      → (probe k).0 ≡ []
      → Within low high w
      → deadline ≤ now + (probe k).1 + w
      → Ended k now (some (record { answer = []; waits = w ∷ [] }))
  over-Ended k now w e h t =
      (_, refl, record { bounded = (h, tt); failed = (e, tt); told = inr (refl, t) })

  is_over-Ended :
      (k now w : ℕ) (over : Bool) (o : Option (Retried Text))
      → (probe k).0 ≡ []
      → Within low high w
      → leb deadline (now + (probe k).1 + w) ≡ over
      → (over ≡ false → Ended (suc k) (now + (probe k).1 + w) o)
      → Ended k now
          (elim over [ true ↦ some (record { answer = []; waits = w ∷ [] }) | false ↦ waited w o ])
  is_over-Ended k now w true o e h t q = over-Ended k now w e h (ground arith)
  is_over-Ended k now w false o e h t q = waited-Ended k now w o e h (q refl)

  ask_app_name-step :
      (n k delay now : ℕ)
      → Within low high delay
      → (leb deadline (now + (probe k).1 + delay) ≡ false
          → Ended (suc k) (now + (probe k).1 + delay) (
              ask_app_name n probe deadline high
                (suc k)
                (longer high delay)
                (now + (probe k).1 + delay)))
      → Ended k now (ask_app_name (suc n) probe deadline high k delay now)
  unfolding ask_app_name
  ask_app_name-step n k delay now w more = elim (Bool-cases (is_empty (probe k).0)) [
    | inl e ↦
        rw (ask_app_name, e)
          (is_over-Ended k now delay _ _ ((is_empty_iff (probe k).0).0 e) w refl more)
    | inr e ↦
        rw (ask_app_name, e)
          (named-Ended k now (λ h. ground (arith, e, is_empty_iff (probe k).0, h)))
  ]

  ask_app_name-Ended :
      (n k delay now : ℕ)
      → Enough n deadline low now
      → Within low high delay
      → Ended k now (ask_app_name (suc n) probe deadline high k delay now)
  ask_app_name-Ended zero k delay now enough w =
      ask_app_name-step zero k delay now w (λ f. absurd (ground arith))
  ask_app_name-Ended (suc n) k delay now enough w = ask_app_name-step (suc n) k delay now w (λ f.
      ask_app_name-Ended n (suc k) (longer high delay) (now + (probe k).1 + delay)
        (Enough-waited n deadline low now (probe k).1 delay w.0 enough)
        (longer-Within low high delay w))

-- Where the fuel is enough for the time, asking for the name of the application ends: with the
-- first name that an attempt gives, or with none once the time is over. All pauses are between the
-- first and the last delay, the first being a second where none is given, and the last no shorter.
pub discover_host_info_app_name-IsAsked :
    (n : ℕ) (probe : ℕ → Text × ℕ) (deadline initial_delay max_delay : ℕ)
    → deadline ≤ n * first_delay initial_delay
    → (r : Retried Text) × (discover_host_info_app_name
          (suc n)
          probe
          deadline
          initial_delay
          max_delay
        ≡ some r)
      × IsAsked probe deadline
          (first_delay initial_delay)
          (last_delay (first_delay initial_delay) max_delay)
          0
          0
          r
unfolding discover_host_info_app_name
discover_host_info_app_name-IsAsked n probe deadline initial_delay max_delay enough =
    let low = first_delay initial_delay in
    ask_app_name-Ended probe deadline low (last_delay low max_delay) n 0 low 0 (omega arith)
      (last_delay-Within low max_delay)
  where
    last_delay-Within : (low high : ℕ) → Within low (last_delay low high) low
    last_delay-Within low high = ground arith
