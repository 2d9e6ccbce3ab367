-- ===== src/Backup/Prune/Passes.antt =====
-- What each of the two passes of pruning leaves, where every file can be removed.
use flux_pg_cluster.Base.{
  ℕ, suc, ◌+◌, ◌-◌, ◌≤◌, ◌<◌, ◌≡◌, ◌≢◌, ◌⊎◌, refl, sym, ap, subst, ◌∙◌, inl, inr, true, Bool, List,
  [], ◌∷◌, ◌++◌, All, length, ltb, Bool-cases, arith,
}
use flux_pg_cluster.Base.Int.{pos}
use flux_pg_cluster.Backup.{BackupFile, Pass, gone, stays, retain_newest, total_size, cap_size}
use flux_pg_cluster.Text.{Text}
use flux_pg_cluster.Text.Laws.{equal_iff}

-- The sum of the files' sizes.
abbrev pub sizes : List BackupFile → ℕ
sizes [] = 0
sizes (f ∷ files) = f.size + sizes files

pub total_size-sizes : (files : List BackupFile) → total_size files ≡ sizes files
unfolding total_size
total_size-sizes [] = refl
total_size-sizes (f ∷ files) = ap (λ n. f.size + n) (total_size-sizes files)

module _ (keep_path : Text) (removes : Text → Bool)
    (able : (path : Text) → removes path ≡ true) where
  -- From the index `i` on: the files that stay make the count full or are all there are.
  pub record Retained (r i : ℕ) (files : List BackupFile) : Type 0 where
    pub near : List BackupFile
    pub far : List BackupFile
    pub order : files ≡ near ++ far
    pub result : retain_newest (pos r) keep_path removes i files ≡ (far, near)
    pub count : length near + i ≤ r
    pub full : (far ≡ []) ⊎ (length near + i ≡ r)

  pub retain_newest-stays :
      (r i : ℕ) (f : BackupFile) (files : List BackupFile)
      → i < r
      → retain_newest (pos r) keep_path removes i (f ∷ files)
        ≡ stays f (retain_newest (pos r) keep_path removes (suc i) files)
  unfolding retain_newest
  retain_newest-stays r i f files h = ground arith

  retain_newest-gone :
      (r i : ℕ) (f : BackupFile) (files : List BackupFile)
      → r ≤ i
      → f.path ≢ keep_path
      → retain_newest (pos r) keep_path removes i (f ∷ files)
        ≡ gone f (retain_newest (pos r) keep_path removes (suc i) files)
  unfolding retain_newest
  retain_newest-gone r i f files h n =
      let removable = able f.path in ground (arith, equal_iff f.path keep_path, removable)

  retain_newest-rest :
      (r i : ℕ) (files : List BackupFile)
      → r ≤ i
      → All (λ f. f.path ≢ keep_path) files
      → retain_newest (pos r) keep_path removes i files ≡ (files, [])
  unfolding retain_newest
  retain_newest-rest r i [] h n = refl
  retain_newest-rest r i (f ∷ files) h n =
      retain_newest-gone r i f files h n.0
      ∙ ap (gone f) (retain_newest-rest r (suc i) files (omega arith) n.1)

  pub retain_newest-Retained :
      (r i : ℕ) (files : List BackupFile)
      → i ≤ r
      → All (λ f. f.path ≢ keep_path) files
      → Retained r i files
  unfolding retain_newest
  retain_newest-Retained r i [] h n = record {
    near = [];
    far = [];
    order = refl;
    result = refl;
    count = omega arith;
    full = inl refl;
  }
  retain_newest-Retained r i (f ∷ files) h n = elim (Bool-cases (ltb i r)) [
    | inl more ↦
        let t = retain_newest-Retained r (suc i) files (ground (arith, more)) n.1 in
        record {
          near = f ∷ t.near;
          far = t.far;
          order = ap (◌∷◌ f) t.order;
          result = retain_newest-stays r i f files (ground (arith, more)) ∙ ap (stays f) t.result;
          count = omega (arith, t.count);
          full = elim t.full [ inl e ↦ inl e | inr e ↦ inr (omega (arith, e)) ];
        }
    | inr done ↦ record {
      near = [];
      far = f ∷ files;
      order = refl;
      result = retain_newest-rest r i (f ∷ files) (ground (arith, done)) n;
      count = omega arith;
      full = inr (ground (arith, done));
    }
  ]

  -- None but the last file is the one to keep.
  abbrev pub KeepsLast : List BackupFile → Type 0
  KeepsLast [] = Unit
  KeepsLast (f ∷ []) = Unit
  KeepsLast (f ∷ g ∷ files) = (f.path ≢ keep_path) × KeepsLast (g ∷ files)

  -- The files that stay fit, or there is one; and with the last of the removed ones they do not fit.
  pub record Capped (cap : ℕ) (files : List BackupFile) (p : Pass) : Type 0 where
    pub order : files ≡ p.0 ++ p.1
    pub some_left : p.1 ≢ []
    pub fits : (sizes p.1 ≤ cap) ⊎ (length p.1 ≡ 1)
    pub needed :
        (p.0 ≡ [])
        ⊎ ((before : List BackupFile) × (f : BackupFile) × (p.0 ≡ before ++ f ∷ [])
            × cap < f.size + sizes p.1)

  left-Capped :
      (cap : ℕ) (f : BackupFile) (files : List BackupFile)
      → (sizes (f ∷ files) ≤ cap) ⊎ (length (f ∷ files) ≡ 1)
      → Capped cap (f ∷ files) ([], f ∷ files)
  left-Capped cap f files h = record {
    order = refl;
    some_left = λ e. cc e;
    fits = h;
    needed = inl refl;
  }

  gone-Capped :
      (cap : ℕ) (f : BackupFile) (files : List BackupFile) (p : Pass)
      → cap < sizes (f ∷ files)
      → Capped cap files p
      → Capped cap (f ∷ files) (gone f p)
  gone-Capped cap f files p h c = record {
    order = ap (◌∷◌ f) c.order;
    some_left = c.some_left;
    fits = c.fits;
    needed = elim c.needed [
      | inl e ↦ inr ([], f, ap (◌∷◌ f) e, subst_left p e c.order)
      | inr (before, g, e, t) ↦ inr (f ∷ before, g, ap (◌∷◌ f) e, t)
    ];
  }
    where
      subst_left : (p : Pass) → p.0 ≡ [] → files ≡ p.0 ++ p.1 → cap < f.size + sizes p.1
      subst_left p e o =
          let same : files ≡ p.1 = o ∙ ap (λ l. l ++ p.1) e in
          let equal_sizes = ap sizes same in omega (arith, equal_sizes)

  cap_size-gone :
      (cap total : ℕ) (f g : BackupFile) (files : List BackupFile)
      → cap < total
      → f.path ≢ keep_path
      → cap_size cap keep_path removes total (f ∷ g ∷ files)
        ≡ gone f (cap_size cap keep_path removes (total - f.size) (g ∷ files))
  unfolding cap_size
  cap_size-gone cap total f g files h n =
      let removable = able f.path in ground (arith, equal_iff f.path keep_path, removable)

  cap_size-fits :
      (cap total : ℕ) (f g : BackupFile) (files : List BackupFile)
      → total ≤ cap
      → cap_size cap keep_path removes total (f ∷ g ∷ files) ≡ ([], f ∷ g ∷ files)
  unfolding cap_size
  cap_size-fits cap total f g files h = ground arith

  pub cap_size-Capped :
      (cap total : ℕ) (f : BackupFile) (files : List BackupFile)
      → total ≡ sizes (f ∷ files)
      → KeepsLast (f ∷ files)
      → Capped cap (f ∷ files) (cap_size cap keep_path removes total (f ∷ files))
  unfolding cap_size
  cap_size-Capped cap total f [] e n = left-Capped cap f [] (inr refl)
  cap_size-Capped cap total f (g ∷ files) e n = elim (Bool-cases (ltb cap total)) [
    | inl over ↦
        subst (Capped cap (f ∷ g ∷ files))
          (sym (cap_size-gone cap total f g files (ground (arith, over)) n.0))
          (gone-Capped cap f (g ∷ files) _ (ground (arith, over, e))
            (cap_size-Capped cap (total - f.size) g files (omega (arith, e)) n.1))
    | inr under ↦
        subst (Capped cap (f ∷ g ∷ files))
          (sym (cap_size-fits cap total f g files (ground (arith, under))))
          (left-Capped cap f (g ∷ files) (inl (ground (arith, under, e))))
  ]
