-- ===== src/Identity/Confirm/Authority.antt =====
-- `confirmRecoveryAuthorityWithPeers`: what every cycle must find.
use flux_pg_cluster.Base.{
  ℕ, zero, suc, ◌+◌, ◌<◌, ◌≡◌, ◌≢◌, ◌↔◌, refl, sym, ap, ◌∙◌, subst, ◌⊎◌, inl, inr, true, arith,
}
use flux_pg_cluster.Config.{Config}
use flux_pg_cluster.Identity.{Evidence, RecoveryAuthority, granted, bind-eq-granted}
use flux_pg_cluster.Text.Laws.{equal_iff}
use flux_pg_cluster.Identity.Confirm.{
  confirm_cycles, confirm_cycles_pos, discover_recovery_authority, same_authority, keep_authority,
  confirm_authority_loop, zero_authority, confirm_recovery_authority_with_peers,
}

same_authority_iff : (a b : RecoveryAuthority) → (same_authority a b ≡ true) ↔ (a ≡ b)
unfolding same_authority
same_authority_iff a b = ground (
  arith,
  equal_iff a.ip b.ip,
  equal_iff a.node_name b.node_name,
  equal_iff a.system_id b.system_id,
)

granted-injective {ℓ} : {A : Type ℓ} {a b : A} → granted a ≡ granted b → a ≡ b
granted-injective e = cc

-- Each of `left` cycles from `cycle` on finds `a`.
abbrev Steady : Config → (ℕ → Evidence) → ℕ → ℕ → RecoveryAuthority → Type 0
Steady cfg evidence left cycle a =
    (k : ℕ) → k < left → discover_recovery_authority cfg (evidence (k + cycle)) ≡ granted a

module _ (cfg : Config) (evidence : ℕ → Evidence) where
  keep_authority-eq :
      (cycle : ℕ) (confirmed authority : RecoveryAuthority) {a : RecoveryAuthority}
      → keep_authority cycle confirmed authority ≡ granted a
      → (a ≡ authority) × ((cycle ≡ 1) ⊎ (authority ≡ confirmed))
  unfolding keep_authority
  keep_authority-eq cycle confirmed authority e =
      ground (arith, same_authority_iff authority confirmed)

  keep_authority-same :
      (cycle : ℕ) (confirmed a : RecoveryAuthority)
      → (cycle ≡ 1) ⊎ (confirmed ≡ a)
      → keep_authority cycle confirmed a ≡ granted a
  unfolding keep_authority
  keep_authority-same cycle confirmed a h = ground (arith, same_authority_iff a confirmed)

  at_cycle :
      (m n : ℕ) (a : RecoveryAuthority)
      → m ≡ n
      → discover_recovery_authority cfg (evidence m) ≡ granted a
      → discover_recovery_authority cfg (evidence n) ≡ granted a
  at_cycle m n a e h = subst (λ i. discover_recovery_authority cfg (evidence i) ≡ granted a) e h

  Steady-cons :
      (left cycle : ℕ) (a : RecoveryAuthority)
      → discover_recovery_authority cfg (evidence cycle) ≡ granted a
      → Steady cfg evidence left (suc cycle) a
      → Steady cfg evidence (suc left) cycle a
  Steady-cons left cycle a h t zero lt = at_cycle cycle (0 + cycle) a (omega arith) h
  Steady-cons left cycle a h t (suc k) lt =
      at_cycle (k + suc cycle) (suc k + cycle) a (omega arith) (t k (omega arith))

  Steady-tail :
      (left cycle : ℕ) (a : RecoveryAuthority)
      → Steady cfg evidence (suc left) cycle a
      → Steady cfg evidence left (suc cycle) a
  Steady-tail left cycle a h k lt =
      at_cycle (suc k + cycle) (k + suc cycle) a (omega arith) (h (suc k) (omega arith))

  loop_sound :
      (left cycle : ℕ) (confirmed : RecoveryAuthority) {a : RecoveryAuthority}
      → (cycle ≢ 1) ⊎ (0 < left)
      → 0 < cycle
      → confirm_authority_loop cfg evidence left cycle confirmed ≡ granted a
      → ((cycle ≢ 1) → confirmed ≡ a) × Steady cfg evidence left cycle a
  unfolding confirm_authority_loop
  loop_sound zero cycle confirmed g h e = (λ _. granted-injective e, λ k lt. absurd (omega arith))
  loop_sound (suc left) cycle confirmed {a} g h e =
      let (found, at, rest) =
        bind-eq-granted (discover_recovery_authority cfg (evidence cycle)) _ e in
      let (kept, k, later) = bind-eq-granted (keep_authority cycle confirmed found) _ rest in
      let (q, was) = keep_authority-eq cycle confirmed found k in
      let (r, steady) = loop_sound left (suc cycle) kept (inl (omega arith)) (omega arith) later in
      let found_a = sym q ∙ r (omega arith) in
      (
        λ ne. elim was [ inl one ↦ absurd (ne one) | inr same ↦ sym same ∙ found_a ],
        Steady-cons left cycle a (at ∙ ap granted found_a) steady,
      )

  loop_complete :
      (left cycle : ℕ) (confirmed a : RecoveryAuthority)
      → (0 < left) ⊎ (confirmed ≡ a)
      → (cycle ≡ 1) ⊎ (confirmed ≡ a)
      → Steady cfg evidence left cycle a
      → confirm_authority_loop cfg evidence left cycle confirmed ≡ granted a
  unfolding confirm_authority_loop
  loop_complete zero cycle confirmed a g was h = elim g [
    | inl lt ↦ absurd (omega arith)
    | inr e ↦ ap granted e
  ]
  loop_complete (suc left) cycle confirmed a g was h =
      let rest =
        loop_complete left (suc cycle) a a (inr refl) (inr refl) (Steady-tail left cycle a h) in
      rw
        (
          at_cycle (0 + cycle) cycle a (omega arith) (h 0 (omega arith)),
          keep_authority-same cycle confirmed a was,
        )
        rest

-- The recovery authority is confirmed as `a` exactly when every cycle, of at least one, names
-- `a` on its own evidence.
pub confirm_recovery_authority_with_peers_iff :
    (cfg : Config) (evidence : ℕ → Evidence) (a : RecoveryAuthority)
    → (confirm_recovery_authority_with_peers cfg evidence ≡ granted a) ↔ (
        (k : ℕ)
        → k < confirm_cycles cfg.bootstrap_peer_confirm_cycles
        → discover_recovery_authority cfg (evidence (k + 1)) ≡ granted a)
unfolding confirm_recovery_authority_with_peers
confirm_recovery_authority_with_peers_iff cfg evidence a =
    let n = confirm_cycles cfg.bootstrap_peer_confirm_cycles in
    let some_cycle = confirm_cycles_pos cfg.bootstrap_peer_confirm_cycles in
    (
      λ e. (loop_sound cfg evidence n 1 zero_authority (inr some_cycle) (omega arith) e).1,
      loop_complete cfg evidence n 1 zero_authority a (inl some_cycle) (inl refl),
    )
