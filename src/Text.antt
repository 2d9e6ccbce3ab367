-- ===== src/Text.antt =====
-- Go strings as lists of bytes, and what the agent uses of the packages strings and strconv.
-- White space is ASCII white space; the separators of `split` and the cuts are one byte.
pub mod Laws
pub mod Sorted
use Prim.Native.Char.{code}
use Prim.Native.String.{String}
use flux_pg_cluster.Base.{
  ℕ, zero, suc, ◌+◌, ◌-◌, Bool, true, false, ◌&&◌, ◌||◌, Option, none, some, List, [], ◌∷◌, ◌++◌,
  length, drop, ◌==◌, leb, ltb, if◌then◌else◌,
}

abbrev pub Text : Type 0
Text = List ℕ

-- The code points of a literal: its bytes, since every literal below is ASCII.
abbrev pub codes : String → Text
codes String.[] = []
codes (String.◌∷◌ c s) = code c ∷ codes s

-- `a == b`
unfoldable pub equal : Text → Text → Bool
equal [] [] = true
equal (x ∷ xs) (y ∷ ys) = x == y && equal xs ys
equal _ _ = false

-- `a < b`, by bytes.
unfoldable pub less : Text → Text → Bool
less [] [] = false
less [] (y ∷ ys) = true
less (x ∷ xs) [] = false
less (x ∷ xs) (y ∷ ys) = ltb x y || (x == y && less xs ys)

abbrev pub is_empty {ℓ} : {A : Type ℓ} → List A → Bool
is_empty [] = true
is_empty (_ ∷ _) = false

-- strings.HasPrefix(s, prefix)
unfoldable pub has_prefix : Text → Text → Bool
has_prefix s [] = true
has_prefix [] (p ∷ ps) = false
has_prefix (c ∷ s) (p ∷ ps) = c == p && has_prefix s ps

-- strings.HasSuffix(s, suffix)
unfoldable pub has_suffix : Text → Text → Bool
unfolding equal
has_suffix [] suffix = equal [] suffix
has_suffix (c ∷ s) suffix = equal (c ∷ s) suffix || has_suffix s suffix

-- strings.TrimPrefix(s, prefix)
unfoldable pub trim_prefix : Text → Text → Text
unfolding has_prefix
trim_prefix s prefix = if has_prefix s prefix then drop (length prefix) s else s

-- strings.Contains(s, sub)
unfoldable pub contains : Text → Text → Bool
unfolding has_prefix
contains [] sub = has_prefix [] sub
contains (c ∷ s) sub = has_prefix (c ∷ s) sub || contains s sub

abbrev pub keep_before : ℕ → Option (Text × Text) → Option (Text × Text)
keep_before c none = none
keep_before c (some (before, after)) = some (c ∷ before, after)

-- strings.Cut(s, sep): what stands before and after the first separator.
unfoldable pub cut : ℕ → Text → Option (Text × Text)
cut sep [] = none
cut sep (c ∷ s) = if c == sep then some ([], s) else keep_before c (cut sep s)

-- `s[:i]` at `i := strings.LastIndex(s, sep)`, and none where `i` is -1.
unfoldable pub before_last : ℕ → Text → Option Text
before_last sep [] = none
before_last sep (c ∷ s) = elim (before_last sep s) [
  | some before ↦ some (c ∷ before)
  | none ↦ if c == sep then some [] else none
]

-- `s[i + len(sub):]` at `i := strings.Index(s, sub)`, and none where `i` is -1.
unfoldable pub after_first : Text → Text → Option Text
unfolding has_prefix
after_first sub [] = if has_prefix [] sub then some [] else none
after_first sub (c ∷ s) =
    if has_prefix (c ∷ s) sub then some (drop (length sub) (c ∷ s)) else after_first sub s

-- A byte in front of the first piece.
abbrev pub onto_head : ℕ → List Text → List Text
onto_head c [] = (c ∷ []) ∷ []
onto_head c (piece ∷ pieces) = (c ∷ piece) ∷ pieces

-- strings.Split(s, sep)
unfoldable pub split : ℕ → Text → List Text
split sep [] = [] ∷ []
split sep (c ∷ s) = let pieces = split sep s in if c == sep then [] ∷ pieces else onto_head c pieces

-- strings.Join(parts, sep)
unfoldable pub join : Text → List Text → Text
join sep [] = []
join sep (x ∷ []) = x
join sep (x ∷ y ∷ rest) = x ++ (sep ++ join sep (y ∷ rest))

abbrev pub is_space : ℕ → Bool
is_space c = c == 32 || (leb 9 c && leb c 13)

unfoldable pub trim_left : Text → Text
trim_left [] = []
trim_left (c ∷ s) = let rest = trim_left s in if is_space c then rest else c ∷ s

unfoldable pub trim_right : Text → Text
trim_right [] = []
trim_right (c ∷ s) = let rest = trim_right s in if is_space c && is_empty rest then [] else c ∷ rest

-- strings.TrimSpace(s)
unfoldable pub trim_space : Text → Text
unfolding trim_left trim_right
trim_space s = trim_right (trim_left s)

-- strings.TrimRight(s, cutset) at a cutset of one byte.
unfoldable pub trim_right_byte : ℕ → Text → Text
trim_right_byte b [] = []
trim_right_byte b (c ∷ s) =
    let rest = trim_right_byte b s in if c == b && is_empty rest then [] else c ∷ rest

-- The number counts the bytes of the last match that are still to be passed over.
unfoldable pub replace_from : ℕ → Text → Text → Text → Text
unfolding has_prefix
replace_from skip old new [] = []
replace_from (suc skip) old new (c ∷ s) = replace_from skip old new s
replace_from zero old new (c ∷ s) = elim (has_prefix (c ∷ s) old) [
  | true ↦ new ++ replace_from (length old - 1) old new s
  | false ↦ c ∷ replace_from zero old new s
]

-- strings.ReplaceAll(s, old, new), for a text `old` that is not empty.
unfoldable pub replace_all : Text → Text → Text → Text
unfolding replace_from
replace_all s old new = replace_from zero old new s

abbrev pub lower_byte : ℕ → ℕ
lower_byte c = if leb b'A' c && leb c b'Z' then c + 32 else c

-- strings.ToLower on ASCII text.
unfoldable pub to_lower : Text → Text
to_lower [] = []
to_lower (c ∷ s) = lower_byte c ∷ to_lower s

-- strings.EqualFold on ASCII text.
unfoldable pub equal_fold : Text → Text → Bool
unfolding equal to_lower
equal_fold a b = equal (to_lower a) (to_lower b)

-- `containsString` of cmd/flux-agent/daemon.go
unfoldable pub contains_string : List Text → Text → Bool
unfolding equal
contains_string [] s = false
contains_string (v ∷ slice) s = equal v s || contains_string slice s

-- `equalStrings` of cmd/flux-agent/bootstrap_identity.go
unfoldable pub equal_strings : List Text → List Text → Bool
unfolding equal
equal_strings [] [] = true
equal_strings (x ∷ a) (y ∷ b) = equal x y && equal_strings a b
equal_strings _ _ = false

unfoldable pub insert_sorted : Text → List Text → List Text
unfolding less
insert_sorted x [] = x ∷ []
insert_sorted x (y ∷ ys) =
    let rest = insert_sorted x ys in if less y x then y ∷ rest else x ∷ y ∷ ys

-- sort.Strings
unfoldable pub sort_strings : List Text → List Text
unfolding insert_sorted
sort_strings [] = []
sort_strings (x ∷ xs) = insert_sorted x (sort_strings xs)
