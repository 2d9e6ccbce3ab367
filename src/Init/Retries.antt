-- ===== src/Init/Retries.antt =====
-- The two loops of cmd/flux-agent/init.go that ask again with growing pauses: for the name of the
-- application, and for the cluster's addresses. Times are in nanoseconds from the loop's start;
-- what an attempt answers and how long it takes are functions of its number.
pub mod Ended
pub mod Found
use flux_pg_cluster.Base.{
  ℕ, zero, suc, ◌+◌, ◌*◌, ◌≤◌, ◌<◌, ◌≡◌, ◌⊎◌, ◌≢◌, refl, inl, inr, Bool, true, false, ◌||◌, not,
  Option, none, some, List, [], ◌∷◌, All, length, leb, ltb, arith, if◌then◌else◌, Bool-cases,
}
use flux_pg_cluster.Text.{Text, is_empty}

-- time.Second
abbrev pub second : ℕ
second = 1000000000

-- The result of a loop, with the pauses it made or, at the end of the time, began.
pub record Retried {ℓ} (A : Type ℓ) : Type ℓ where
  pub answer : A
  pub waits : List ℕ

abbrev pub waited {ℓ} : {A : Type ℓ} → ℕ → Option (Retried A) → Option (Retried A)
waited w none = none
waited w (some r) = some (record { answer = r.answer; waits = w ∷ r.waits })

abbrev pub longer : ℕ → ℕ → ℕ
longer max_delay delay =
    if ltb delay max_delay
    then if ltb max_delay (delay + second) then max_delay else delay + second
    else delay

-- The loop of `discoverHostInfoAppName`; none where the fuel runs out. Where the context's end and
-- the timer's come at once, the context's counts: an attempt past it could only fail.
unfoldable pub ask_app_name :
    ℕ
    → (ℕ → Text × ℕ)
    → (deadline : ℕ) → (max_delay : ℕ) → (attempt : ℕ) → (delay : ℕ) → (now : ℕ)
    → Option (Retried Text)
ask_app_name zero probe deadline max_delay k delay now = none
ask_app_name (suc fuel) probe deadline max_delay k delay now =
    let now1 = now + (probe k).1 in
    elim (is_empty (probe k).0) [
      | false ↦ some (record { answer = (probe k).0; waits = [] })
      | true ↦ elim (leb deadline (now1 + delay)) [
        | true ↦ some (record { answer = []; waits = delay ∷ [] })
        | false ↦ waited delay (
            ask_app_name fuel probe deadline max_delay (suc k) (longer max_delay delay)
              (now1 + delay))
      ]
    ]

abbrev pub first_delay : ℕ → ℕ
first_delay zero = second
first_delay (suc d) = suc d

abbrev pub last_delay : ℕ → ℕ → ℕ
last_delay initial_delay max_delay =
    if ltb max_delay initial_delay then initial_delay else max_delay

-- `discoverHostInfoAppName`
unfoldable pub discover_host_info_app_name :
    ℕ
    → (ℕ → Text × ℕ)
    → (deadline : ℕ) → (initial_delay : ℕ) → (max_delay : ℕ) → Option (Retried Text)
unfolding ask_app_name
discover_host_info_app_name fuel probe deadline initial_delay max_delay =
    let initial = first_delay initial_delay in
    ask_app_name fuel probe deadline (last_delay initial max_delay) zero initial zero

abbrev pub is_listed : Option (List Text) → Bool
is_listed none = false
is_listed (some ips) = not (is_empty ips)

abbrev pub next_delay : ℕ → ℕ
next_delay delay = if ltb delay (5 * second) then delay + second else delay

-- The loop of `discoverClusterIPs`; an answer is none for an error. At the end of the time the
-- last answer is returned, whose list is empty where it is no error.
unfoldable pub ask_ips :
    ℕ
    → (ℕ → Option (List Text) × ℕ)
    → (deadline : ℕ) → (attempt : ℕ) → (delay : ℕ) → (now : ℕ)
    → Option (Retried (Option (List Text)))
ask_ips zero ask deadline k delay now = none
ask_ips (suc fuel) ask deadline k delay now =
    let now1 = now + (ask k).1 in
    elim (is_listed (ask k).0 || ltb deadline now1) [
      | true ↦ some (record { answer = (ask k).0; waits = [] })
      | false ↦ waited delay (ask_ips fuel ask deadline (suc k) (next_delay delay) (now1 + delay))
    ]

-- `discoverClusterIPs`
unfoldable pub discover_cluster_ips :
    ℕ → (ℕ → Option (List Text) × ℕ) → Option (Retried (Option (List Text)))
unfolding ask_ips
discover_cluster_ips fuel ask = ask_ips fuel ask (60 * second) zero second zero
