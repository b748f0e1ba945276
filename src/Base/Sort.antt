-- ===== src/Base/Sort.antt =====
-- Python's `sorted`: a stable sort by a total preorder.
use mathlib.Core.Path.{◌≡◌, refl, ◌∙◌}
use mathlib.Core.Logic.{◌⊎◌, inl, inr}
use mathlib.Core.Bool.{Bool, true, false}
use mathlib.Core.List.{List, [], ◌∷◌, Memᴰ, Permᴰ}
use mathlib.Core.List.Permᴰ
use native.Mathlib.Omega.{arith}
use pico_dome.Base.Tests.{if◌then◌else◌, Bool-cases}
use pico_dome.Base.Lists.{All, mem-cons_cases, All-of_mem, All-mem}

module _ {ℓ} {A : Type ℓ} (leq : A → A → Bool) where
  -- Before the first member that is not smaller, so equal members keep their order.
  unfoldable pub insert_by : A → List A → List A
  insert_by x [] = x ∷ []
  insert_by x (y ∷ ys) = if leq x y then x ∷ y ∷ ys else y ∷ insert_by x ys

  unfoldable pub sort_by : List A → List A
  unfolding insert_by
  sort_by [] = []
  sort_by (x ∷ xs) = insert_by x (sort_by xs)

  abbrev pub IsSorted : List A → Type ℓ
  IsSorted [] = Unit
  IsSorted (x ∷ xs) = All (λ y. leq x y ≡ true) xs × IsSorted xs

  pub insert_by-perm : (x : A) (ys : List A) → Permᴰ (insert_by x ys) (x ∷ ys)
  unfolding insert_by
  insert_by-perm x [] = Permᴰ.refl (x ∷ [])
  insert_by-perm x (y ∷ ys) = elim (Bool-cases (leq x y)) [
    | inl q ↦ rw q (Permᴰ.refl (x ∷ y ∷ ys))
    | inr q ↦ rw q (Permᴰ.trans (Permᴰ.cons refl (insert_by-perm x ys)) (Permᴰ.swap refl refl))
  ]

  -- The sorted list holds the given members, each as often as it was given.
  pub sort_by-perm : (xs : List A) → Permᴰ (sort_by xs) xs
  unfolding sort_by
  sort_by-perm [] = Permᴰ.nil
  sort_by-perm (x ∷ xs) =
      Permᴰ.trans (insert_by-perm x (sort_by xs)) (Permᴰ.cons refl (sort_by-perm xs))

  mem_of_mem-insert_by :
      (x : A) {y : A} (xs : List A) → Memᴰ y (insert_by x xs) → (y ≡ x) ⊎ Memᴰ y xs
  unfolding insert_by
  mem_of_mem-insert_by x [] m = mem-cons_cases m
  mem_of_mem-insert_by x (z ∷ zs) m = elim (Bool-cases (leq x z)) [
    | inl q ↦ mem-cons_cases (rw q at m)
    | inr q ↦ elim (mem-cons_cases (rw q at m)) [
      | inl e ↦ inr (Memᴰ.head e)
      | inr n ↦ elim (mem_of_mem-insert_by x zs n) [ inl e ↦ inl e | inr k ↦ inr (Memᴰ.tail k) ]
    ]
  ]

  mem-insert_by_self : (x : A) (xs : List A) → Memᴰ x (insert_by x xs)
  unfolding insert_by
  mem-insert_by_self x [] = Memᴰ.head refl
  mem-insert_by_self x (z ∷ zs) = elim (Bool-cases (leq x z)) [
    | inl q ↦ rw q (Memᴰ.head refl)
    | inr q ↦ rw q (Memᴰ.tail (mem-insert_by_self x zs))
  ]

  mem-insert_by_of_mem : (x : A) {y : A} (xs : List A) → Memᴰ y xs → Memᴰ y (insert_by x xs)
  unfolding insert_by
  mem-insert_by_of_mem x [] m = elim m [ ]
  mem-insert_by_of_mem x (z ∷ zs) (Memᴰ.head e) = elim (Bool-cases (leq x z)) [
    | inl q ↦ rw q (Memᴰ.tail (Memᴰ.head e))
    | inr q ↦ rw q (Memᴰ.head e)
  ]
  mem-insert_by_of_mem x (z ∷ zs) (Memᴰ.tail m) = elim (Bool-cases (leq x z)) [
    | inl q ↦ rw q (Memᴰ.tail (Memᴰ.tail m))
    | inr q ↦ rw q (Memᴰ.tail (mem-insert_by_of_mem x zs m))
  ]

  pub mem_of_mem-sort_by : {y : A} (xs : List A) → Memᴰ y (sort_by xs) → Memᴰ y xs
  unfolding sort_by
  mem_of_mem-sort_by [] m = m
  mem_of_mem-sort_by (x ∷ xs) m = elim (mem_of_mem-insert_by x (sort_by xs) m) [
    | inl e ↦ Memᴰ.head e
    | inr n ↦ Memᴰ.tail (mem_of_mem-sort_by xs n)
  ]

  pub mem-sort_by : {y : A} (xs : List A) → Memᴰ y xs → Memᴰ y (sort_by xs)
  unfolding sort_by
  mem-sort_by [] m = m
  mem-sort_by {y} (x ∷ xs) (Memᴰ.head e) = rw e (mem-insert_by_self x (sort_by xs))
  mem-sort_by (x ∷ xs) (Memᴰ.tail m) = mem-insert_by_of_mem x (sort_by xs) (mem-sort_by xs m)

  module _ (total : (x y : A) → leq x y ≡ false → leq y x ≡ true)
      (trans : (x y z : A) → leq x y ≡ true → leq y z ≡ true → leq x z ≡ true) where
    All-below :
        (x y : A) (ys : List A)
        → leq x y ≡ true
        → All (λ z. leq y z ≡ true) ys
        → All (λ z. leq x z ≡ true) ys
    All-below x y [] q h = tt
    All-below x y (z ∷ zs) q h = (trans x y z q h.0, All-below x y zs q h.1)

    pub insert_by-IsSorted : (x : A) (ys : List A) → IsSorted ys → IsSorted (insert_by x ys)
    unfolding insert_by
    insert_by-IsSorted x [] h = (tt, tt)
    insert_by-IsSorted x (y ∷ ys) h = elim (Bool-cases (leq x y)) [
      | inl q ↦ rw q ((q, All-below x y ys q h.0), h)
      | inr q ↦ rw q (
        All-of_mem (λ z. leq y z ≡ true) (insert_by x ys) (λ z m. below q z m),
        insert_by-IsSorted x ys h.1,
      )
    ]
      where
        below : leq x y ≡ false → (z : A) → Memᴰ z (insert_by x ys) → leq y z ≡ true
        below q z m = elim (mem_of_mem-insert_by x ys m) [
          | inl e ↦ rw e (total x y q)
          | inr n ↦ All-mem (λ w. leq y w ≡ true) h.0 n
        ]

    pub sort_by-IsSorted : (xs : List A) → IsSorted (sort_by xs)
    unfolding sort_by
    sort_by-IsSorted [] = tt
    sort_by-IsSorted (x ∷ xs) = insert_by-IsSorted x (sort_by xs) (sort_by-IsSorted xs)

    -- The first of the sorted list is a member, and at most every member.
    pub sort_by-head_least :
        (xs : List A) {h : A} {t : List A}
        → sort_by xs ≡ h ∷ t
        → Memᴰ h xs × ((y : A) → Memᴰ y xs → (y ≡ h) ⊎ (leq h y ≡ true))
    sort_by-head_least xs {h} {t} e = (
      mem_of_mem-sort_by xs (rw e (Memᴰ.head refl)),
      λ y m. elim (mem-cons_cases (rw e at (mem-sort_by xs m))) [
        | inl q ↦ inl q
        | inr n ↦ inr (All-mem (λ z. leq h z ≡ true) sorted.0 n)
      ],
    )
      where
        sorted : IsSorted (h ∷ t)
        sorted = rw e at (sort_by-IsSorted xs)

    insert_by_comm :
        (x y : A) (zs : List A)
        → (leq x y ≡ true → leq y x ≡ true → x ≡ y)
        → insert_by x (insert_by y zs) ≡ insert_by y (insert_by x zs)
    unfolding insert_by
    insert_by_comm x y [] anti = ground (arith, total x y)
    insert_by_comm x y (z ∷ zs) anti =
        ground (arith, total x y, trans x y z, trans y x z, insert_by_comm x y zs anti)

    -- Where members that are each at most the other are equal, the sorted list does not depend on the
    -- order of the given one.
    pub sort_by_unique {κ} :
        (Q : A → Type κ) {xs ys : List A}
        → ((x y : A) → Q x → Q y → leq x y ≡ true → leq y x ≡ true → x ≡ y)
        → Permᴰ xs ys
        → All Q xs
        → (sort_by xs ≡ sort_by ys) × All Q ys
    unfolding sort_by
    sort_by_unique Q anti Permᴰ.nil q = (refl, tt)
    sort_by_unique Q anti (Permᴰ.cons e p) q =
        let (same, rest) = sort_by_unique Q anti p q.1 in (rw (e, same) refl, (rw e at q.0, rest))
    sort_by_unique Q anti (Permᴰ.swap {a} {b} {a'} {b'} {l} e f) q =
        let qb = rw e at q.0 in
        let qa = rw f at q.1.0 in
        (rw (e, f) (insert_by_comm b' a' (sort_by l) (anti b' a' qb qa)), (qa, (qb, q.1.1)))
    sort_by_unique Q anti (Permᴰ.trans p r) q =
        let (same, mid) = sort_by_unique Q anti p q in
        let (also, rest) = sort_by_unique Q anti r mid in (same ∙ also, rest)
