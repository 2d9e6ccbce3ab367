-- ===== src/Backup/Prune/Pruned.antt =====
-- Pruning as a whole keeps as many of the newest backups as the count and the cap allow.
use mathlib.Core.List.{Perm}
use mathlib.Core.List.Perm
use flux_pg_cluster.Base.{
  ℕ, suc, ◌+◌, ◌≤◌, ◌<◌, ◌≡◌, ◌≢◌, ◌⊎◌, refl, sym, ap, subst, ◌∙◌, inl, inr, true, Bool, some, List,
  [], ◌∷◌, ◌++◌, All, All-map, All-append, length, arith,
}
use flux_pg_cluster.Base.Int.{pos}
use flux_pg_cluster.Backup.{
  BackupFile, Entry, Pass, stays, sort_newest, retain_newest, total_size, cap_size, reverse_onto,
  after_retention, prune_backups, backups_of_entries,
}
use flux_pg_cluster.Backup.Prune.Newest.{
  Descending, IsEarlier, sort_newest-All, sort_newest-Descending, sort_newest-Perm,
  sort_newest_same, sort_newest-latest,
}
use flux_pg_cluster.Backup.Prune.Passes.{
  sizes, total_size-sizes, retain_newest-stays, retain_newest-Retained, KeepsLast, Capped,
  cap_size-Capped,
}
use flux_pg_cluster.Backup.Prune.Reversed.{
  reversed_parts, reverse_onto-append, reverse-Perm, sizes-reverse_onto, length-reverse_onto,
}
use flux_pg_cluster.Text.{Text}

-- The files, the newest first, are those that are kept, those that the cap removes, and the old
-- ones that the count removes. The latest is kept; what is kept fits under the cap or is that one
-- file; and neither the count nor the cap would allow one more.
pub record IsPruned (files : List BackupFile) (latest : BackupFile) (retain cap : ℕ) (p : Pass)
    : Type 0 where
  pub kept : List BackupFile
  pub capped : List BackupFile
  pub old : List BackupFile
  pub ordered : Descending ((kept ++ capped) ++ old)
  pub same : Perm ((kept ++ capped) ++ old) files
  pub stay : Perm p.1 kept
  pub go : Perm p.0 (old ++ capped)
  pub latest_kept : (rest : List BackupFile) × (kept ≡ latest ∷ rest)
  pub count : length (kept ++ capped) ≤ retain
  pub full : (old ≡ []) ⊎ (length (kept ++ capped) ≡ retain)
  pub fits : (sizes kept ≤ cap) ⊎ (length kept ≡ 1)
  pub needed :
      (capped ≡ [])
      ⊎ ((next : BackupFile) × (rest : List BackupFile) × (capped ≡ next ∷ rest)
          × cap < next.size + sizes kept)

Descending-append : (xs ys : List BackupFile) → Descending (xs ++ ys) → Descending xs
Descending-append [] ys d = tt
Descending-append (x ∷ xs) ys d = (front xs d.0, Descending-append xs ys d.1)
  where
    front :
        (xs : List BackupFile)
        → All (λ g. g.modified ≤ x.modified) (xs ++ ys)
        → All (λ g. g.modified ≤ x.modified) xs
    front [] h = tt
    front (z ∷ zs) h = (h.0, front zs h.1)

module _ (keep_path : Text) (removes : Text → Bool)
    (able : (path : Text) → removes path ≡ true) where
  reverse_onto-KeepsLast :
      (a : BackupFile) (acc near : List BackupFile)
      → KeepsLast keep_path removes able (a ∷ acc)
      → All (λ f. f.path ≢ keep_path) near
      → KeepsLast keep_path removes able (reverse_onto (a ∷ acc) near)
  unfolding reverse_onto
  reverse_onto-KeepsLast a acc [] k h = k
  reverse_onto-KeepsLast a acc (n ∷ near) k h = reverse_onto-KeepsLast n (a ∷ acc) near (h.0, k) h.1

  capped_lem :
      (cap : ℕ) (oldest_first : List BackupFile)
      → oldest_first ≢ []
      → KeepsLast keep_path removes able oldest_first
      → Capped keep_path removes able cap oldest_first
          (cap_size cap keep_path removes (sizes oldest_first) oldest_first)
  capped_lem cap [] n k = absurd (n refl)
  capped_lem cap (f ∷ files) n k =
      cap_size-Capped keep_path removes able cap (sizes (f ∷ files)) f files refl k

reversed_needed :
    (cap : ℕ) (removed left : List BackupFile)
    → (removed ≡ [])
      ⊎ ((before : List BackupFile) × (f : BackupFile) × (removed ≡ before ++ f ∷ [])
          × cap < f.size + sizes left)
    → (reverse_onto [] removed ≡ [])
      ⊎ ((next : BackupFile) × (rest : List BackupFile) × (reverse_onto [] removed ≡ next ∷ rest)
          × cap < next.size + sizes (reverse_onto [] left))
unfolding reverse_onto
reversed_needed cap removed left (inl e) = inl (ap (reverse_onto []) e)
reversed_needed cap removed left (inr (before, f, e, t)) = inr (
  f,
  reverse_onto [] before,
  ap (reverse_onto []) e ∙ reverse_onto-append [] before (f ∷ []),
  omega (arith, t, sizes-reverse_onto [] left),
)

reversed_fits :
    (cap : ℕ) (left : List BackupFile)
    → (sizes left ≤ cap) ⊎ (length left ≡ 1)
    → (sizes (reverse_onto [] left) ≤ cap) ⊎ (length (reverse_onto [] left) ≡ 1)
reversed_fits cap left (inl e) = inl (omega (arith, e, sizes-reverse_onto [] left))
reversed_fits cap left (inr e) = inr (omega (arith, e, length-reverse_onto [] left))

-- The first of two parts that is not empty begins as the whole does.
first_part :
    (latest : BackupFile) (near kept capped : List BackupFile)
    → latest ∷ near ≡ kept ++ capped
    → kept ≢ []
    → (rest : List BackupFile) × (kept ≡ latest ∷ rest)
first_part latest near [] capped e n = absurd (n refl)
first_part latest near (k ∷ kept) capped e n = (kept, ap (λ f. f ∷ kept) (head_eq e))
  where
    head_eq : {f g : BackupFile} {xs ys : List BackupFile} → f ∷ xs ≡ g ∷ ys → g ≡ f
    head_eq h = cc h

reverse-ne-nil : (xs : List BackupFile) → xs ≢ [] → reverse_onto [] xs ≢ []
reverse-ne-nil [] n e = n refl
reverse-ne-nil (x ∷ xs) n e =
    let counts = ap length e in
    let counted = length-reverse_onto [] (x ∷ xs) in absurd (omega (arith, counts, counted))

-- The old files, and what the cap leaves of the others.
abbrev onto_old : List BackupFile → Pass → Pass
onto_old old (removed, left) = (old ++ removed, left)

module _ (latest : BackupFile) (removes : Text → Bool)
    (able : (path : Text) → removes path ≡ true) where
  -- What the second pass works on is the first pass's result, the oldest first.
  after_retention-eq :
      (n : ℕ) (near far : List BackupFile)
      → Descending (latest ∷ near)
      → after_retention (pos (suc n)) latest.path removes (far, latest ∷ near)
        ≡ onto_old far (
            cap_size
              (suc n)
              latest.path
              removes
              (sizes (reverse_onto [] (latest ∷ near)))
              (reverse_onto [] (latest ∷ near)))
  after_retention-eq n near far d =
      ap
        (λ l.
          onto_old far (cap_size (suc n) latest.path removes (total_size l) (reverse_onto [] l)))
        (sort_newest_same (latest ∷ near) d)
      ∙ ap
          (λ total.
            onto_old far
              (cap_size (suc n) latest.path removes total (reverse_onto [] (latest ∷ near))))
          (total_size-sizes (latest ∷ near)
            ∙ sym (sizes-reverse_onto [] (latest ∷ near) ∙ omega arith))

  pruned_lem :
      (r n : ℕ) (files near far : List BackupFile)
      → Descending ((latest ∷ near) ++ far)
      → Perm ((latest ∷ near) ++ far) files
      → All (λ f. f.path ≢ latest.path) near
      → length (latest ∷ near) ≤ suc r
      → (far ≡ []) ⊎ (length (latest ∷ near) ≡ suc r)
      → IsPruned files latest
          (suc r)
          (suc n)
          (after_retention (pos (suc n)) latest.path removes (far, latest ∷ near))
  unfolding reverse_onto
  pruned_lem r n files near far d same others count full =
      let all = latest ∷ near in
      let oldest_first = reverse_onto [] all in
      let p = cap_size (suc n) latest.path removes (sizes oldest_first) oldest_first in
      let c =
        capped_lem latest.path removes able (suc n) oldest_first (reverse-ne-nil all (λ e. cc e))
          (reverse_onto-KeepsLast latest.path removes able latest [] near tt others) in
      let parts : all ≡ reverse_onto [] p.1 ++ reverse_onto [] p.0 =
        reversed_parts all p.0 p.1 c.order in
      subst (IsPruned files latest (suc r) (suc n))
        (sym (after_retention-eq n near far (Descending-append all far d)))
        (record {
          kept = reverse_onto [] p.1;
          capped = reverse_onto [] p.0;
          old = far;
          ordered = subst (λ l. Descending (l ++ far)) parts d;
          same = subst (λ l. Perm (l ++ far) files) parts same;
          stay = Perm.symm (reverse-Perm p.1);
          go = Perm.append_left far (Perm.symm (reverse-Perm p.0));
          latest_kept = first_part latest near _ _ parts (reverse-ne-nil p.1 c.some_left);
          count = subst (λ l. length l ≤ suc r) parts count;
          full = subst (λ l. (far ≡ []) ⊎ (length l ≡ suc r)) parts full;
          fits = reversed_fits (suc n) p.1 c.fits;
          needed = reversed_needed (suc n) p.0 p.1 c.needed;
        })

-- Where every file can be removed, and the backup just made is newer than all the others and alone
-- at its path, pruning under a count and a cap on the total size keeps the newest backups: that
-- one, and as many of the next as the count and the cap allow. No file is removed that is newer
-- than one that stays, and each file stays or is removed.
pub prune_backups-IsPruned :
    (dir : Text) (entries : List Entry) (r n : ℕ) (removes : Text → Bool)
    (before after : List BackupFile) (latest : BackupFile)
    → ((path : Text) → removes path ≡ true)
    → backups_of_entries dir entries ≡ before ++ latest ∷ after
    → All (IsEarlier latest) before
    → All (IsEarlier latest) after
    → IsPruned
        (backups_of_entries dir entries)
        latest
        (suc r)
        (suc n)
        (prune_backups dir (some entries) (pos (suc r)) (pos (suc n)) latest.path removes)
unfolding prune_backups
prune_backups-IsPruned dir entries r n removes before after latest able listed h k =
    let files = backups_of_entries dir entries in
    let rest = sort_newest (before ++ after) in
    let sorted : sort_newest files ≡ latest ∷ rest =
      ap sort_newest listed ∙ sort_newest-latest latest before after h k in
    let earlier = sort_newest-All (IsEarlier latest) _ (All-append _ before after h k) in
    let others = All-map (λ f e. e.0) rest earlier in
    let t = retain_newest-Retained latest.path removes able (suc r) 1 rest (omega arith) others in
    let first : retain_newest (pos (suc r)) latest.path removes 0 (sort_newest files)
        ≡ (t.far, latest ∷ t.near) =
      ap (retain_newest (pos (suc r)) latest.path removes 0) sorted
      ∙ retain_newest-stays latest.path removes able (suc r) 0 latest rest (omega arith)
      ∙ ap (stays latest) t.result in
    let order : sort_newest files ≡ (latest ∷ t.near) ++ t.far = sorted ∙ ap (◌∷◌ latest) t.order in
    subst
      (λ p.
        IsPruned files latest (suc r) (suc n) (after_retention (pos (suc n)) latest.path removes p))
      (sym first)
      (pruned_lem latest removes able r n files t.near t.far
        (subst Descending order (sort_newest-Descending files))
        (subst (λ l. Perm l files) order (sort_newest-Perm files))
        (front t.near t.far (subst (All (λ f. f.path ≢ latest.path)) t.order others))
        (omega (arith, t.count)) (elim t.full [ inl e ↦ inl e | inr e ↦ inr (omega (arith, e)) ]))
  where
    front :
        (xs ys : List BackupFile)
        → All (λ f. f.path ≢ latest.path) (xs ++ ys)
        → All (λ f. f.path ≢ latest.path) xs
    front [] ys m = tt
    front (x ∷ xs) ys m = (m.0, front xs ys m.1)
