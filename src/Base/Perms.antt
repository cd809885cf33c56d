-- ===== src/Base/Perms.antt =====
-- Lists up to order.
use mathlib.Core.List.{append-nil, append_assoc, Perm, perm_middle}
use mathlib.Core.List.Perm
use mathlib.Core.Path.{sym, subst}
use mathlib.Core.List.{List, [], ◌∷◌, ◌++◌}

append_comm {ℓ} : {A : Type ℓ} (xs ys : List A) → Perm (xs ++ ys) (ys ++ xs)
append_comm [] ys = subst (λ r. Perm ys r) (sym (append-nil ys)) (Perm.refl ys)
append_comm (x ∷ xs) ys =
    Perm.trans (Perm.cons x (append_comm xs ys)) (Perm.symm (perm_middle ys xs))

pub append_left_comm {ℓ} :
    {A : Type ℓ} (xs ys zs : List A) → Perm (xs ++ (ys ++ zs)) (ys ++ (xs ++ zs))
append_left_comm xs ys zs =
    subst (λ r. Perm r (ys ++ (xs ++ zs))) (append_assoc xs ys zs)
      (subst (λ r. Perm ((xs ++ ys) ++ zs) r) (append_assoc ys xs zs)
        (Perm.append (append_comm xs ys) (Perm.refl zs)))
