-- ===== src/Text/Laws.antt =====
-- Laws of the text operations: equality and order by bytes, cutting, splitting, trimming.
use mathlib.Core.List.{append_assoc}
use flux_pg_cluster.Base.{
  ℕ, ◌≡◌, ◌≢◌, ◌↔◌, refl, ap, ◌∙◌, true, false, none, some, List, [], ◌∷◌, ◌++◌, All, arith, ◌==◌,
  if◌then◌else◌,
}
use flux_pg_cluster.Text.{
  is_empty, Text, equal, less, cut, before_last, split, join, is_space, trim_left, trim_right,
  trim_space, equal_strings, replace_all,
}

pub equal_iff : (a b : Text) → (equal a b ≡ true) ↔ (a ≡ b)
unfolding equal
equal_iff (x ∷ a) (y ∷ b) = ground (arith, equal_iff a b)
equal_iff _ _ = ground arith

pub equal_refl : (a : Text) → equal a a ≡ true
equal_refl a = (equal_iff a a).1 refl

pub equal_strings_iff : (a b : List Text) → (equal_strings a b ≡ true) ↔ (a ≡ b)
unfolding equal_strings
equal_strings_iff (x ∷ a) (y ∷ b) = ground (arith, equal_iff x y, equal_strings_iff a b)
equal_strings_iff _ _ = ground arith

pub less_irrefl : (a : Text) → less a a ≡ false
unfolding less
less_irrefl [] = refl
less_irrefl (x ∷ a) = ground (arith, less_irrefl a)

pub less_trans : (a b c : Text) → less a b ≡ true → less b c ≡ true → less a c ≡ true
unfolding less
less_trans [] [] _ h k = cc
less_trans [] (y ∷ b) [] h k = cc
less_trans [] (y ∷ b) (z ∷ c) h k = refl
less_trans (x ∷ a) [] _ h k = cc
less_trans (x ∷ a) (y ∷ b) [] h k = cc
less_trans (x ∷ a) (y ∷ b) (z ∷ c) h k = ground (arith, less_trans a b c)

pub less_total : (a b : Text) → less a b ≡ false → less b a ≡ false → a ≡ b
unfolding less
less_total [] [] h k = refl
less_total [] (y ∷ b) h k = cc
less_total (x ∷ a) [] h k = cc
less_total (x ∷ a) (y ∷ b) h k = ground (arith, less_total a b)

-- No byte of the text is `b`.
abbrev pub Lacks : ℕ → Text → Type 0
Lacks b = All (λ c. c ≢ b)

pub Lacks-append : (b : ℕ) (s t : Text) → Lacks b s → Lacks b t → Lacks b (s ++ t)
Lacks-append b [] t h k = k
Lacks-append b (c ∷ s) t h k = (h.0, Lacks-append b s t h.1 k)

pub cut-append : (sep : ℕ) (s t : Text) → Lacks sep s → cut sep (s ++ sep ∷ t) ≡ some (s, t)
unfolding cut
cut-append sep [] t h = ground arith
cut-append sep (c ∷ s) t h = ground (arith, cut-append sep s t h.1)

before_last_of_Lacks : (sep : ℕ) (s : Text) → Lacks sep s → before_last sep s ≡ none
unfolding before_last
before_last_of_Lacks sep [] h = refl
before_last_of_Lacks sep (c ∷ s) h = ground (arith, before_last_of_Lacks sep s h.1)

pub before_last-append :
    (sep : ℕ) (s t : Text) → Lacks sep t → before_last sep (s ++ sep ∷ t) ≡ some s
unfolding before_last
before_last-append sep [] t h = rw (before_last_of_Lacks sep t h) (ground arith)
before_last-append sep (c ∷ s) t h = rw (before_last-append sep s t h)

pub split_of_Lacks : (sep : ℕ) (s : Text) → Lacks sep s → split sep s ≡ s ∷ []
unfolding split
split_of_Lacks sep [] h = refl
split_of_Lacks sep (c ∷ s) h = rw (split_of_Lacks sep s h.1) (ground arith)

pub split-append : (sep : ℕ) (s t : Text) → Lacks sep s → split sep (s ++ sep ∷ t) ≡ s ∷ split sep t
unfolding split
split-append sep [] t h = ground arith
split-append sep (c ∷ s) t h = rw (split-append sep s t h.1) (ground arith)

-- Splitting undoes joining, for pieces that lack the separator.
pub split-join :
    (sep : ℕ) (x : Text) (xs : List Text)
    → All (Lacks sep) (x ∷ xs)
    → split sep (join (sep ∷ []) (x ∷ xs)) ≡ x ∷ xs
unfolding join
split-join sep x [] h = split_of_Lacks sep x h.0
split-join sep x (y ∷ xs) h =
    split-append sep x (join (sep ∷ []) (y ∷ xs)) h.0 ∙ ap (◌∷◌ x) (split-join sep y xs h.1)

-- The same with a separator behind the last piece, as lines are written.
pub split-join_terminated :
    (sep : ℕ) (x : Text) (xs : List Text)
    → All (Lacks sep) (x ∷ xs)
    → split sep (join (sep ∷ []) (x ∷ xs) ++ sep ∷ []) ≡ (x ∷ xs) ++ [] ∷ []
unfolding join split
split-join_terminated sep x [] h = split-append sep x [] h.0
split-join_terminated sep x (y ∷ xs) h =
    ap (split sep) (append_assoc x (sep ∷ join (sep ∷ []) (y ∷ xs)) (sep ∷ []))
    ∙ split-append sep x (join (sep ∷ []) (y ∷ xs) ++ sep ∷ []) h.0
    ∙ ap (◌∷◌ x) (split-join_terminated sep y xs h.1)

-- The text neither begins nor ends with white space.
abbrev pub IsTrimmed : Text → Type 0
IsTrimmed s = trim_space s ≡ s

-- No byte of the text is white space.
abbrev pub NoSpace : Text → Type 0
NoSpace = All (λ c. is_space c ≡ false)

pub NoSpace-trim_right : (s : Text) → NoSpace s → trim_right s ≡ s
unfolding trim_right
NoSpace-trim_right [] h = refl
NoSpace-trim_right (c ∷ s) h = rw (h.0, NoSpace-trim_right s h.1)

NoSpace-trim_left : (s : Text) → NoSpace s → trim_left s ≡ s
unfolding trim_left
NoSpace-trim_left [] h = refl
NoSpace-trim_left (c ∷ s) h = rw h.0

pub NoSpace-IsTrimmed : (s : Text) → NoSpace s → IsTrimmed s
unfolding trim_space
NoSpace-IsTrimmed s h = ap trim_right (NoSpace-trim_left s h) ∙ NoSpace-trim_right s h

-- Replacing one byte goes byte by byte.
pub replace_all_byte :
    (c : ℕ) (s : Text) (b : ℕ) (new : Text)
    → replace_all (c ∷ s) (b ∷ []) new
      ≡ (if c == b then new ++ replace_all s (b ∷ []) new else c ∷ replace_all s (b ∷ []) new)
unfolding replace_all
replace_all_byte c [] b new = ground arith
replace_all_byte c (d ∷ s) b new = ground arith

-- A byte that cannot begin a match is kept.
pub replace_all_other :
    (c : ℕ) (s : Text) (b : ℕ) (old new : Text)
    → c ≢ b
    → replace_all (c ∷ s) (b ∷ old) new ≡ c ∷ replace_all s (b ∷ old) new
unfolding replace_all
replace_all_other c s b old new h = ground arith

pub is_empty_iff : (s : Text) → (is_empty s ≡ true) ↔ (s ≡ [])
is_empty_iff [] = ground arith
is_empty_iff (c ∷ s) = ground arith
