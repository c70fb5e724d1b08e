-- ===== src/Prelude/Perms.antt =====
-- What two lists with the same elements have in common.
use mathlib.Core.Bool.{Bool, false, ◌||◌}
use mathlib.Core.List.{List, [], ◌∷◌, ◌++◌, Perm, foldr, append_assoc, perm_middle}
use mathlib.Core.List.Perm
use mathlib.Core.List.Perm.{foldr-eq}
use mathlib.Core.Path.{◌≡◌, refl, sym, ap, ◌∙◌}
use native.Mathlib.Nat.{ℕ_set}
use native.Mathlib.Omega.{arith}
use Prim.Native.Nat.{ℕ, suc, ◌+◌}
use hardhat.Prelude.Lists.{length, any}
use hardhat.Prelude.Tests.{if◌then◌else◌}

Bool-IsSet : IsSet Bool
Bool-IsSet = hlevel

or_swap : (a b c : Bool) → (a || (b || c)) ≡ (b || (a || c))
or_swap a b c = ground arith

module _ {ℓ} {A : Type ℓ} where
  -- both are folds by steps whose order does not matter
  length-foldr : (xs : List A) → length xs ≡ foldr (λ x n. suc n) 0 xs
  length-foldr [] = refl
  length-foldr (x ∷ xs) = ap suc (length-foldr xs)

  any-foldr : (test : A → Bool) (xs : List A) → any test xs ≡ foldr (λ x b. test x || b) false xs
  any-foldr test [] = refl
  any-foldr test (x ∷ xs) = ap (λ b. test x || b) (any-foldr test xs)

  pub length-perm : {xs ys : List A} → Perm xs ys → length xs ≡ length ys
  length-perm {xs} {ys} p =
      length-foldr xs ∙ foldr-eq ℕ_set (λ x n. suc n) (λ x y n. refl) p 0 ∙ sym (length-foldr ys)

  pub any-perm : (test : A → Bool) {xs ys : List A} → Perm xs ys → any test xs ≡ any test ys
  any-perm test {xs} {ys} p =
      any-foldr test xs
      ∙ foldr-eq Bool-IsSet (λ x b. test x || b) (λ x y b. or_swap (test x) (test y) b) p false
      ∙ sym (any-foldr test ys)

  -- how many elements pass a test
  abbrev pub count : (A → Bool) → List A → ℕ
  count test [] = 0
  count test (x ∷ xs) = (if test x then 1 else 0) + count test xs

  pub count-append :
      (test : A → Bool) (xs ys : List A) → count test (xs ++ ys) ≡ count test xs + count test ys
  count-append test [] ys = omega arith
  count-append test (x ∷ xs) ys = omega (arith, count-append test xs ys)

  count-foldr :
      (test : A → Bool) (xs : List A)
      → count test xs ≡ foldr (λ x n. (if test x then 1 else 0) + n) 0 xs
  count-foldr test [] = refl
  count-foldr test (x ∷ xs) = ap (λ n. (if test x then 1 else 0) + n) (count-foldr test xs)

  pub count-perm : (test : A → Bool) {xs ys : List A} → Perm xs ys → count test xs ≡ count test ys
  count-perm test {xs} {ys} p =
      count-foldr test xs
      ∙ foldr-eq ℕ_set (λ x n. (if test x then 1 else 0) + n) (λ x y n. omega arith) p 0
      ∙ sym (count-foldr test ys)

  -- two lists change places before a third
  pub perm-rotate : (xs ys zs : List A) → Perm (xs ++ (ys ++ zs)) (ys ++ (xs ++ zs))
  perm-rotate [] ys zs = Perm.refl _
  perm-rotate (x ∷ xs) ys zs =
      Perm.trans (Perm.cons x (perm-rotate xs ys zs)) (Perm.symm (perm_middle ys (xs ++ zs)))

  -- what two steps took out of a list, each in two parts
  pub perm-gather :
      (a b c d rest : List A)
      → Perm (a ++ (b ++ (c ++ (d ++ rest)))) ((a ++ c) ++ ((b ++ d) ++ rest))
  perm-gather a b c d rest =
      rw (append_assoc a c ((b ++ d) ++ rest), append_assoc b d rest)
        (Perm.append_left a (perm-rotate b c (d ++ rest)))
