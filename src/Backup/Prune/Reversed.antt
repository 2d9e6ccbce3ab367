-- ===== src/Backup/Prune/Reversed.antt =====
-- Lists of backups turned round.
use mathlib.Core.List.{Perm, perm_middle, append-nil, append_assoc}
use mathlib.Core.List.Perm
use flux_pg_cluster.Base.{◌+◌, ◌≡◌, refl, sym, ap, subst, ◌∙◌, List, [], ◌∷◌, ◌++◌, length, arith}
use flux_pg_cluster.Backup.{BackupFile, reverse_onto}
use flux_pg_cluster.Backup.Prune.Passes.{sizes}

pub reverse_onto-append :
    (acc xs ys : List BackupFile)
    → reverse_onto acc (xs ++ ys) ≡ reverse_onto (reverse_onto acc xs) ys
unfolding reverse_onto
reverse_onto-append acc [] ys = refl
reverse_onto-append acc (x ∷ xs) ys = reverse_onto-append (x ∷ acc) xs ys

pub reverse_onto-nil : (acc xs : List BackupFile) → reverse_onto acc xs ≡ reverse_onto [] xs ++ acc
unfolding reverse_onto
reverse_onto-nil acc [] = refl
reverse_onto-nil acc (x ∷ xs) =
    reverse_onto-nil (x ∷ acc) xs
    ∙ sym (append_assoc (reverse_onto [] xs) (x ∷ []) acc)
    ∙ ap (λ l. l ++ acc) (sym (reverse_onto-nil (x ∷ []) xs))

reverse_onto-reverse_onto :
    (ys acc xs : List BackupFile)
    → reverse_onto ys (reverse_onto acc xs) ≡ reverse_onto (xs ++ ys) acc
unfolding reverse_onto
reverse_onto-reverse_onto ys acc [] = refl
reverse_onto-reverse_onto ys acc (x ∷ xs) = reverse_onto-reverse_onto ys (x ∷ acc) xs

-- Turned round, the two parts of a reversed list are the list.
pub reversed_parts :
    (files removed left : List BackupFile)
    → reverse_onto [] files ≡ removed ++ left
    → files ≡ reverse_onto [] left ++ reverse_onto [] removed
unfolding reverse_onto
reversed_parts files removed left e =
    sym (append-nil files)
    ∙ sym (reverse_onto-reverse_onto [] [] files)
    ∙ ap (reverse_onto []) e
    ∙ reverse_onto-append [] removed left
    ∙ reverse_onto-nil (reverse_onto [] removed) left

reverse_onto-Perm : (acc xs : List BackupFile) → Perm (reverse_onto acc xs) (xs ++ acc)
unfolding reverse_onto
reverse_onto-Perm acc [] = Perm.refl acc
reverse_onto-Perm acc (x ∷ xs) = Perm.trans (reverse_onto-Perm (x ∷ acc) xs) (perm_middle xs acc)

pub reverse-Perm : (xs : List BackupFile) → Perm (reverse_onto [] xs) xs
reverse-Perm xs = subst (Perm (reverse_onto [] xs)) (append-nil xs) (reverse_onto-Perm [] xs)

pub sizes-reverse_onto :
    (acc xs : List BackupFile) → sizes (reverse_onto acc xs) ≡ sizes xs + sizes acc
unfolding reverse_onto
sizes-reverse_onto acc [] = omega arith
sizes-reverse_onto acc (x ∷ xs) = let rest = sizes-reverse_onto (x ∷ acc) xs in omega (arith, rest)

pub length-reverse_onto :
    (acc xs : List BackupFile) → length (reverse_onto acc xs) ≡ length xs + length acc
unfolding reverse_onto
length-reverse_onto acc [] = omega arith
length-reverse_onto acc (x ∷ xs) =
    let rest = length-reverse_onto (x ∷ acc) xs in omega (arith, rest)
