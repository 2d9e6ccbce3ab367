-- ===== src/Text/Sorted.antt =====
-- sort.Strings does not depend on the order of what it sorts.
use mathlib.Core.List.{Perm, Permᴰ, is_set}
use native.Mathlib.Nat.{ℕ_set}
use mathlib.Core.Logic.{∥∥₁_elim}
use flux_pg_cluster.Base.{◌≡◌, refl, ◌∙◌, List, [], ◌∷◌, arith}
use flux_pg_cluster.Text.{Text, insert_sorted, sort_strings}
use flux_pg_cluster.Text.Laws.{less_irrefl, less_trans, less_total}

insert_sorted_comm :
    (x y : Text) (zs : List Text)
    → insert_sorted x (insert_sorted y zs) ≡ insert_sorted y (insert_sorted x zs)
unfolding insert_sorted
insert_sorted_comm x y [] =
    let t = less_total x y in
    let u = less_trans x y x in let v = less_irrefl x in ground (arith, t, u, v)
insert_sorted_comm x y (z ∷ zs) =
    let rest = insert_sorted_comm x y zs in
    let t = less_total x y in
    ground (
      arith,
      rest,
      t,
      less_trans x y x,
      less_irrefl x,
      less_trans y x z,
      less_trans x y z,
      less_trans z x y,
      less_trans z y x,
      less_total x z,
      less_total y z,
    )

sort_strings-Permᴰ : {xs ys : List Text} → Permᴰ xs ys → sort_strings xs ≡ sort_strings ys
unfolding sort_strings
sort_strings-Permᴰ Permᴰ.nil = refl
sort_strings-Permᴰ (Permᴰ.cons e p) = let rest = sort_strings-Permᴰ p in cc
sort_strings-Permᴰ (Permᴰ.swap {a = a} {b = b} {l = l} e f) =
    let c = insert_sorted_comm a b (sort_strings l) in cc
sort_strings-Permᴰ (Permᴰ.trans p q) = sort_strings-Permᴰ p ∙ sort_strings-Permᴰ q

-- Two lists that hold the same texts, each as often as the other, are sorted into the same list.
pub sort_strings-Perm : (xs ys : List Text) → Perm xs ys → sort_strings xs ≡ sort_strings ys
sort_strings-Perm xs ys p = ∥∥₁_elim p (is_set (is_set ℕ_set) _ _) sort_strings-Permᴰ
