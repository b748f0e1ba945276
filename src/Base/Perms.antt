-- ===== src/Base/Perms.antt =====
-- What a permutation of a list keeps.
use mathlib.Core.Path.{◌≡◌, refl, ◌∙◌}
use mathlib.Core.Logic.{inl, inr}
use mathlib.Core.List.{List, Memᴰ, Permᴰ}
use native.Mathlib.Omega.{arith}
use pico_dome.Base.Lists.{length, mem-cons_cases, All, All-mem, All-of_mem}

module _ {ℓ} {A : Type ℓ} where
  pub length-perm : {xs ys : List A} → Permᴰ xs ys → length xs ≡ length ys
  length-perm Permᴰ.nil = refl
  length-perm (Permᴰ.cons e p) = omega (arith, length-perm p)
  length-perm (Permᴰ.swap e f) = refl
  length-perm (Permᴰ.trans p q) = length-perm p ∙ length-perm q

  pub mem-perm : {x : A} {xs ys : List A} → Permᴰ xs ys → Memᴰ x xs → Memᴰ x ys
  mem-perm Permᴰ.nil m = m
  mem-perm (Permᴰ.cons e p) m = elim (mem-cons_cases m) [
    | inl q ↦ Memᴰ.head (q ∙ e)
    | inr n ↦ Memᴰ.tail (mem-perm p n)
  ]
  mem-perm (Permᴰ.swap e f) m = elim (mem-cons_cases m) [
    | inl q ↦ Memᴰ.tail (Memᴰ.head (q ∙ e))
    | inr n ↦ elim (mem-cons_cases n) [
      | inl q ↦ Memᴰ.head (q ∙ f)
      | inr k ↦ Memᴰ.tail (Memᴰ.tail k)
    ]
  ]
  mem-perm (Permᴰ.trans p q) m = mem-perm q (mem-perm p m)

  pub All-perm {κ} : (P : A → Type κ) {xs ys : List A} → Permᴰ ys xs → All P xs → All P ys
  All-perm P {xs} {ys} p h = All-of_mem P ys (λ x m. All-mem P h (mem-perm p m))
