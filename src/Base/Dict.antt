-- ===== src/Base/Dict.antt =====
-- A Python dict keyed by texts, in insertion order.
use Prim.Native.String.{String}
use mathlib.Core.Path.{◌≡◌, refl}
use mathlib.Core.Logic.{◌⊎◌, ◌≢◌, inl, inr}
use mathlib.Core.Option.{Option, none, some}
use mathlib.Core.List.{List, [], ◌∷◌, ◌++◌, Memᴰ}
use native.Mathlib.Omega.{arith}
use pico_dome.Base.Tests.{if◌then◌else◌, Bool-cases}
use pico_dome.Base.Lists.{mem-cons_cases}
use pico_dome.Base.Text.{str_eq, eq_iff, eq_refl}

abbrev pub Dict {ℓ} : Type ℓ → Type ℓ
Dict V = List (String × V)

module _ {ℓ} {V : Type ℓ} where
  -- `d.get(k)`
  unfoldable pub lookup : String → Dict V → Option V
  lookup k [] = none
  lookup k ((j, v) ∷ d) = if str_eq j k then some v else lookup k d

  -- `d[k] = v`
  unfoldable pub insert : String → V → Dict V → Dict V
  insert k v [] = (k, v) ∷ []
  insert k v ((j, w) ∷ d) = if str_eq j k then (j, v) ∷ d else (j, w) ∷ insert k v d

  -- `d.pop(k, None)`; a key stands at most once.
  unfoldable pub pop : String → Dict V → Dict V
  pop k [] = []
  pop k ((j, w) ∷ d) = if str_eq j k then pop k d else (j, w) ∷ pop k d

  -- `list(d.values())`
  unfoldable pub values : Dict V → List V
  values [] = []
  values ((j, v) ∷ d) = v ∷ values d

  pub lookup-insert :
      (k j : String) (v : V) (d : Dict V)
      → lookup j (insert k v d) ≡ (if str_eq k j then some v else lookup j d)
  unfolding lookup insert
  lookup-insert k j v [] = refl
  lookup-insert k j v ((i, w) ∷ d) =
      ground (arith, eq_iff k j, eq_iff i k, eq_iff i j, lookup-insert k j v d)

  pub lookup-insert_self : (k : String) (v : V) (d : Dict V) → lookup k (insert k v d) ≡ some v
  lookup-insert_self k v d = rw (lookup-insert, eq_refl)

  pub lookup-insert_ne :
      (k j : String) (v : V) (d : Dict V) → k ≢ j → lookup j (insert k v d) ≡ lookup j d
  lookup-insert_ne k j v d h = ground (arith, lookup-insert k j v d, eq_iff k j)

  pub lookup-pop :
      (k j : String) (d : Dict V) → lookup j (pop k d) ≡ (if str_eq k j then none else lookup j d)
  unfolding lookup pop
  lookup-pop k j [] = ground arith
  lookup-pop k j ((i, w) ∷ d) = ground (arith, eq_iff k j, eq_iff i k, eq_iff i j, lookup-pop k j d)

  pub lookup-cons :
      (k j : String) (w : V) {v : V} (d : Dict V)
      → lookup j d ≡ none
      → lookup k d ≡ some v
      → lookup k ((j, w) ∷ d) ≡ some v
  unfolding lookup
  lookup-cons k j w d e f = ground (arith, eq_iff j k)

  pub lookup-cons_cases :
      (k j : String) (w : V) {v : V} (d : Dict V)
      → lookup k ((j, w) ∷ d) ≡ some v
      → (w ≡ v) ⊎ (lookup k d ≡ some v)
  unfolding lookup
  lookup-cons_cases k j w d e = elim (Bool-cases (str_eq j k)) [
    | inl q ↦ inl (some_inj (rw q at e))
    | inr q ↦ inr (rw q at e)
  ]
    where
      some_inj : {v w : V} → some w ≡ some v → w ≡ v
      some_inj e = cc

  module _ (key : V → String) where
    -- Each value stands under its own key, and no key stands twice.
    abbrev pub IsKeyed : Dict V → Type ℓ
    IsKeyed [] = Unit
    IsKeyed ((k, v) ∷ d) = (key v ≡ k) × (lookup k d ≡ none) × IsKeyed d

  module _ (key : V → String) where
    pub insert-IsKeyed :
        (k : String) (v : V) (d : Dict V) → key v ≡ k → IsKeyed key d → IsKeyed key (insert k v d)
    unfolding insert lookup
    insert-IsKeyed k v [] e h = (e, refl, tt)
    insert-IsKeyed k v ((j, w) ∷ d) e h =
        ground (arith, eq_iff j k, eq_iff k j, insert-IsKeyed k v d e h.2, lookup-insert k j v d)

    pub pop-IsKeyed : (k : String) (d : Dict V) → IsKeyed key d → IsKeyed key (pop k d)
    unfolding pop
    pop-IsKeyed k [] h = tt
    pop-IsKeyed k ((j, w) ∷ d) h = ground (arith, pop-IsKeyed k d h.2, lookup-pop k j d)

    pub key_of_lookup :
        (k : String) {v : V} (d : Dict V) → IsKeyed key d → lookup k d ≡ some v → key v ≡ k
    unfolding lookup
    key_of_lookup k [] h e = cc
    key_of_lookup k {v} ((j, w) ∷ d) h e = ground (arith, eq_iff j k, key_of_lookup k {v = v} d h.2)

    -- What `values` lists is what is found under its own key.
    pub lookup_of_mem :
        (d : Dict V) {v : V} → IsKeyed key d → Memᴰ v (values d) → lookup (key v) d ≡ some v
    unfolding lookup values
    lookup_of_mem [] h m = elim m [ ]
    lookup_of_mem ((j, w) ∷ d) {v} h m = elim (mem-cons_cases m) [
      | inl e ↦ ground (arith, eq_iff j (key v))
      | inr n ↦ let ih = lookup_of_mem d h.2 n in ground (arith, eq_iff j (key v))
    ]

  pub mem_of_lookup : (k : String) {v : V} (d : Dict V) → lookup k d ≡ some v → Memᴰ v (values d)
  unfolding lookup values
  mem_of_lookup k [] e = cc
  mem_of_lookup k {v} ((j, w) ∷ d) e = elim (Bool-cases (str_eq j k)) [
    | inl q ↦ Memᴰ.head (ground arith)
    | inr q ↦ Memᴰ.tail (mem_of_lookup k d (ground arith))
  ]

  -- `INSERT OR REPLACE` into a table with the primary key `k`: the old row goes, the new one is last.
  unfoldable pub replace : String → V → Dict V → Dict V
  unfolding pop
  replace k v d = pop k d ++ (k, v) ∷ []

  lookup-append :
      (j k : String) (v : V) (d : Dict V)
      → lookup j (d ++ (k, v) ∷ []) ≡ elim (lookup j d) as (λ _. Option V) [
        | some w ↦ some w
        | none ↦ if str_eq k j then some v else none
      ]
  unfolding lookup
  lookup-append j k v [] = refl
  lookup-append j k v ((i, w) ∷ d) = ground (arith, lookup-append j k v d)

  pub lookup-replace :
      (k j : String) (v : V) (d : Dict V)
      → lookup j (replace k v d) ≡ (if str_eq k j then some v else lookup j d)
  unfolding replace
  lookup-replace k j v d = ground (arith, lookup-append j k v (pop k d), lookup-pop k j d)

  module _ (key : V → String) where
    append-IsKeyed :
        (k : String) (v : V) (d : Dict V)
        → key v ≡ k
        → lookup k d ≡ none
        → IsKeyed key d
        → IsKeyed key (d ++ (k, v) ∷ [])
    unfolding lookup
    append-IsKeyed k v [] e l h = (e, refl, tt)
    append-IsKeyed k v ((j, w) ∷ d) e l h = ground (
      arith,
      eq_iff j k,
      eq_iff k j,
      lookup-append j k v d,
      append-IsKeyed k v d e (ground arith) h.2,
    )

    pub replace-IsKeyed :
        (k : String) (v : V) (d : Dict V) → key v ≡ k → IsKeyed key d → IsKeyed key (replace k v d)
    unfolding replace
    replace-IsKeyed k v d e h =
        append-IsKeyed k v (pop k d) e (rw (lookup-pop, eq_refl)) (pop-IsKeyed key k d h)
