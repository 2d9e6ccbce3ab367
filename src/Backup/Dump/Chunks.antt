-- ===== src/Backup/Dump/Chunks.antt =====
-- Searching chunk by chunk, with a tail carried over, finds what stands in the whole content.
use mathlib.Core.List.{append-nil, append_assoc}
use flux_pg_cluster.Base.{
  ℕ, zero, suc, ◌+◌, ◌-◌, ◌≤◌, ◌≡◌, ◌≢◌, refl, sym, ap, ◌∙◌, Bool, true, false, ◌&&◌, Option, none,
  some, List, [], ◌∷◌, ◌++◌, length, drop, ltb, Bool-cases, inl, inr, arith,
}
use flux_pg_cluster.Backup.Dump.{GzipStream, next_carry, scan_chunks, gzip_contains}
use flux_pg_cluster.Text.{Text, contains, has_prefix}

-- The whole content.
unfoldable pub content : List Text → Text
content [] = []
content (chunk ∷ chunks) = chunk ++ content chunks

has_prefix-append : (s t p : Text) → length p ≤ length s → has_prefix (s ++ t) p ≡ has_prefix s p
unfolding has_prefix
has_prefix-append [] t [] h = empty_prefix t
  where
    empty_prefix : (u : Text) → has_prefix u [] ≡ true
    empty_prefix [] = refl
    empty_prefix (c ∷ u) = refl
has_prefix-append [] t (c ∷ p) h = absurd (omega (arith, h))
has_prefix-append (c ∷ s) t [] h = refl
has_prefix-append (c ∷ s) t (d ∷ p) h =
    let rest = has_prefix-append s t p (omega (arith, h)) in ground (arith, rest)

contains-nil : (s : Text) → contains s [] ≡ true
unfolding contains has_prefix
contains-nil [] = refl
contains-nil (c ∷ s) = refl

-- A front in which no match can begin that does not end in the text may be dropped.
contains-drop :
    (n : ℕ) (hay rest needle : Text)
    → n + length needle ≤ suc (length hay)
    → contains hay needle ≡ false
    → contains (hay ++ rest) needle ≡ contains (drop n hay ++ rest) needle
contains-drop zero hay rest needle h k = refl
contains-drop (suc n) [] rest [] h k = absurd (cc (k, contains-nil []))
contains-drop (suc n) [] rest (c ∷ needle) h k = absurd (omega (arith, h))
contains-drop (suc n) (c ∷ hay) rest needle h k =
    let (no_match, later) = parts k in
    first no_match ∙ contains-drop n hay rest needle (omega (arith, h)) later
  where
    parts :
        contains (c ∷ hay) needle ≡ false
        → (has_prefix (c ∷ hay) needle ≡ false) × (contains hay needle ≡ false)
    parts e = unfold contains in ground (arith, e)

    first :
        has_prefix (c ∷ hay) needle ≡ false
        → contains (c ∷ (hay ++ rest)) needle ≡ contains (hay ++ rest) needle
    first e =
        let same = has_prefix-append (c ∷ hay) rest needle (omega (arith, h)) in
        unfold contains in rw (same ∙ e) refl

prefix-append : (s t p : Text) → has_prefix s p ≡ true → has_prefix (s ++ t) p ≡ true
unfolding has_prefix
prefix-append [] [] [] h = refl
prefix-append [] (c ∷ t) [] h = refl
prefix-append [] t (d ∷ p) h = cc h
prefix-append (c ∷ s) t [] h = refl
prefix-append (c ∷ s) t (d ∷ p) h = let rest = prefix-append s t p in ground (arith, rest)

contains-append_left : (s t p : Text) → contains s p ≡ true → contains (s ++ t) p ≡ true
unfolding contains
contains-append_left [] t [] h = contains-nil t
contains-append_left [] t (c ∷ p) h = absurd (unfold has_prefix in cc h)
contains-append_left (c ∷ s) t p h =
    let here = prefix-append (c ∷ s) t p in
    let later = contains-append_left s t p in ground (arith, here, later)

-- What is carried over finds the same as the whole.
carry-lem :
    (needle hay rest : Text)
    → contains hay needle ≡ false
    → contains (next_carry needle hay ++ rest) needle ≡ contains (hay ++ rest) needle
unfolding next_carry
carry-lem needle hay rest h =
    elim (Bool-cases (ltb 0 (length needle - 1) && ltb (length needle - 1) (length hay))) [
      | inl cut ↦
          rw cut
            (sym (contains-drop (length hay - (length needle - 1)) hay rest needle (room cut) h))
      | inr whole ↦ rw whole refl
    ]
  where
    room :
        (ltb 0 (length needle - 1) && ltb (length needle - 1) (length hay)) ≡ true
        → (length hay - (length needle - 1)) + length needle ≤ suc (length hay)
    room e = ground arith

-- What the search says of a content.
abbrev pub verdict : Bool → Bool → Option Bool
verdict true clean = some true
verdict false true = some false
verdict false false = none

scan-content :
    (needle carry : Text) (chunks : List Text) (clean : Bool)
    → contains carry needle ≡ false
    → scan_chunks needle carry chunks clean
      ≡ verdict (contains (carry ++ content chunks) needle) clean
unfolding scan_chunks content
scan-content needle carry [] true h = rw (append-nil carry, h) refl
scan-content needle carry [] false h = rw (append-nil carry, h) refl
scan-content needle carry ([] ∷ chunks) clean h = scan-content needle carry chunks clean h
scan-content needle carry ((c ∷ chunk) ∷ chunks) clean h =
    let hay = carry ++ c ∷ chunk in
    let whole = append_assoc carry (c ∷ chunk) (content chunks) in
    elim (Bool-cases (contains hay needle)) [
      | inl found ↦ rw found (
          ap (λ b. verdict b clean)
            (sym (contains-append_left hay (content chunks) needle found)
              ∙ ap (λ s. contains s needle) whole))
      | inr missing ↦
          let tail = next_carry needle hay in
          let none_left =
            ap (λ s. contains s needle) (sym (append-nil tail))
            ∙ carry-lem needle hay [] missing
            ∙ ap (λ s. contains s needle) (append-nil hay)
            ∙ missing in
          rw missing (
            scan-content needle tail chunks clean none_left
            ∙ ap (λ b. verdict b clean)
                (carry-lem needle hay (content chunks) missing ∙ ap (λ s. contains s needle) whole))
    ]

contains_empty : (needle : Text) → needle ≢ [] → contains [] needle ≡ false
unfolding contains has_prefix
contains_empty [] h = absurd (h refl)
contains_empty (c ∷ needle) h = refl

-- The search, chunk by chunk with a tail carried over, answers as one search of the whole content
-- would, however the content is cut into chunks: found where the text stands anywhere, even where
-- the stream breaks off later; and else not found at a clean end, or a read error. The text is not
-- empty.
pub gzip_contains-content :
    (s : GzipStream) (needle : Text)
    → needle ≢ []
    → gzip_contains (some s) needle ≡ verdict (contains (content s.chunks) needle) s.clean
unfolding gzip_contains
gzip_contains-content s needle h = scan-content needle [] s.chunks s.clean (contains_empty needle h)
