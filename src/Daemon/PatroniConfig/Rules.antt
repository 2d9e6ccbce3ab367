-- ===== src/Daemon/PatroniConfig/Rules.antt =====
-- What stands in a configuration under the keys postgresql and pg_hba, and the completion of the
-- rules.
use mathlib.Core.List.{append-nil, append_assoc}
use flux_pg_cluster.Base.{
  ◌≡◌, ◌≢◌, ◌↔◌, refl, sym, ◌∙◌, subst, inl, inr, true, Option, none, some, List, [], ◌∷◌, ◌++◌,
  All, All-map, Member, Member-append_left, Member-append_right, Bool-cases, arith,
}
use flux_pg_cluster.Daemon.PatroniConfig.{
  Json, null, bool, float, int, string, array, strings, object, Values, no_values, value, Fields,
  no_fields, map_or_new, string_values, existing_hba, add_required,
}
use flux_pg_cluster.Text.{Text, contains_string}
use flux_pg_cluster.Text.Laws.{equal_iff}

-- The entry is a map, or it is none, and counts as an empty one.
pub data MapOf : Option Json → Fields → Type 0 where
  is_map : (m : Fields) → MapOf (some (object m)) m
  no_map : (o : Option Json) → ((m : Fields) → o ≢ some (object m)) → MapOf o no_fields

pub map_or_new-MapOf : (o : Option Json) → MapOf o (map_or_new o)
map_or_new-MapOf none = no_map none (λ m e. cc e)
map_or_new-MapOf (some (object m)) = is_map m
map_or_new-MapOf (some null) = no_map _ (λ m e. cc e)
map_or_new-MapOf (some (bool b)) = no_map _ (λ m e. cc e)
map_or_new-MapOf (some (float b)) = no_map _ (λ m e. cc e)
map_or_new-MapOf (some (int z)) = no_map _ (λ m e. cc e)
map_or_new-MapOf (some (string t)) = no_map _ (λ m e. cc e)
map_or_new-MapOf (some (array vs)) = no_map _ (λ m e. cc e)
map_or_new-MapOf (some (strings ts)) = no_map _ (λ m e. cc e)

-- The texts among the values of an array, in order.
pub data TextsOf : Values → List Text → Type 0 where
  no_texts : TextsOf no_values []
  a_text :
      (t : Text) (vs : Values) (ts : List Text)
      → TextsOf vs ts
      → TextsOf (value (string t) vs) (t ∷ ts)
  no_text :
      (v : Json) (vs : Values) (ts : List Text)
      → ((t : Text) → v ≢ string t)
      → TextsOf vs ts
      → TextsOf (value v vs) ts

string_values-TextsOf : (vs : Values) → TextsOf vs (string_values vs)
unfolding string_values
string_values-TextsOf no_values = no_texts
string_values-TextsOf (value (string t) vs) = a_text t vs _ (string_values-TextsOf vs)
string_values-TextsOf (value null vs) = no_text _ vs _ (λ t e. cc e) (string_values-TextsOf vs)
string_values-TextsOf (value (bool b) vs) = no_text _ vs _ (λ t e. cc e) (string_values-TextsOf vs)
string_values-TextsOf (value (float b) vs) = no_text _ vs _ (λ t e. cc e) (string_values-TextsOf vs)
string_values-TextsOf (value (int z) vs) = no_text _ vs _ (λ t e. cc e) (string_values-TextsOf vs)
string_values-TextsOf (value (array ws) vs) =
    no_text _ vs _ (λ t e. cc e) (string_values-TextsOf vs)
string_values-TextsOf (value (strings ts) vs) =
    no_text _ vs _ (λ t e. cc e) (string_values-TextsOf vs)
string_values-TextsOf (value (object m) vs) =
    no_text _ vs _ (λ t e. cc e) (string_values-TextsOf vs)

-- The rules under an entry: the texts of an array, or of a list of texts; another entry has none.
pub data RulesOf : Option Json → List Text → Type 0 where
  of_array : (vs : Values) (ts : List Text) → TextsOf vs ts → RulesOf (some (array vs)) ts
  of_strings : (ts : List Text) → RulesOf (some (strings ts)) ts
  no_rules :
      (o : Option Json)
      → ((vs : Values) → o ≢ some (array vs))
      → ((ts : List Text) → o ≢ some (strings ts))
      → RulesOf o []

pub existing_hba-RulesOf : (o : Option Json) → RulesOf o (existing_hba o)
existing_hba-RulesOf none = no_rules _ (λ x e. cc e) (λ x e. cc e)
existing_hba-RulesOf (some (array vs)) = of_array vs _ (string_values-TextsOf vs)
existing_hba-RulesOf (some (strings ts)) = of_strings ts
existing_hba-RulesOf (some null) = no_rules _ (λ x e. cc e) (λ x e. cc e)
existing_hba-RulesOf (some (bool b)) = no_rules _ (λ x e. cc e) (λ x e. cc e)
existing_hba-RulesOf (some (float b)) = no_rules _ (λ x e. cc e) (λ x e. cc e)
existing_hba-RulesOf (some (int z)) = no_rules _ (λ x e. cc e) (λ x e. cc e)
existing_hba-RulesOf (some (string t)) = no_rules _ (λ x e. cc e) (λ x e. cc e)
existing_hba-RulesOf (some (object m)) = no_rules _ (λ x e. cc e) (λ x e. cc e)

-- Telling whether a text is in a list.
contains_string_iff : (l : List Text) (t : Text) → (contains_string l t ≡ true) ↔ Member t l
unfolding contains_string
contains_string_iff [] t = ground arith
contains_string_iff (x ∷ l) t =
    let rest = contains_string_iff l t in ground (arith, rest, equal_iff x t)

-- The result is the existing rules, in order, followed by required ones that were missing, and has
-- all the required ones.
pub record Completes (required existing result : List Text) : Type 0 where
  pub added : List Text
  pub order : result ≡ existing ++ added
  pub missing : All (λ r. (¬ Member r existing) × Member r required) added
  pub complete : All (λ r. Member r result) required

Completes-known :
    (r : Text) (required existing result : List Text)
    → Member r existing
    → Completes required existing result
    → Completes (r ∷ required) existing result
Completes-known r required existing result m c = record {
  added = c.added;
  order = c.order;
  missing = All-map (λ t h. (h.0, inr h.1)) c.added c.missing;
  complete = (subst (Member r) (sym c.order) (Member-append_left r existing c.added m), c.complete);
}

Completes-new :
    (r : Text) (required existing result : List Text)
    → ¬ Member r existing
    → Completes required (existing ++ r ∷ []) result
    → Completes (r ∷ required) existing result
Completes-new r required existing result n c =
    let order = c.order ∙ append_assoc existing (r ∷ []) c.added in
    record {
      added = r ∷ c.added;
      order = order;
      missing = (
        (n, inl refl),
        All-map (λ t h. (λ m. h.0 (Member-append_left t existing (r ∷ []) m), inr h.1)) c.added
            c.missing,
      );
      complete = (
        subst (Member r) (sym order) (Member-append_right r existing (r ∷ c.added) (inl refl)),
        c.complete,
      );
    }

pub add_required-Completes :
    (required existing : List Text) → Completes required existing (add_required required existing)
unfolding add_required
add_required-Completes [] existing = record {
  added = [];
  order = sym (append-nil existing);
  missing = tt;
  complete = tt;
}
add_required-Completes (r ∷ required) existing = elim (Bool-cases (contains_string existing r)) [
  | inl there ↦
      rw (add_required, there)
        (Completes-known r required existing _ ((contains_string_iff existing r).0 there)
          (add_required-Completes required existing))
  | inr absent ↦
      rw (add_required, absent)
        (Completes-new r required existing _
          (λ m. ground (arith, contains_string_iff existing r, absent, m))
          (add_required-Completes required (existing ++ r ∷ [])))
]

pub add_required_same :
    (required existing : List Text)
    → All (λ r. Member r existing) required
    → add_required required existing ≡ existing
unfolding add_required
add_required_same [] existing h = refl
add_required_same (r ∷ required) existing h =
    rw ((contains_string_iff existing r).1 h.0) (add_required_same required existing h.1)
