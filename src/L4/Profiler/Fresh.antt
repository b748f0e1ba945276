-- ===== src/L4/Profiler/Fresh.antt =====
-- l4/profiler.py: what a profile holds of the matches in the output.
use Prim.Native.String.{◌++◌ as str_append}
use pico_dome.Base.{
  ℕ, String, Bool, true, false, List, [], ◌∷◌, map, Memᴰ, All, All-weaken, All-mem, All-of_mem,
  Option, none, some, if◌then◌else◌, mem-cons_cases, ◌≡◌, ◌≢◌, ◌⊎◌, refl, inl, inr, arith, sym, ap,
  Bool-cases, not, ◌&&◌,
}
use pico_dome.Base.Text.{str_eq, eq_iff, eq_refl, contains}
use pico_dome.L3.Run.{SandboxResult}
use pico_dome.L4.Profiler.{
  Groups, fresh, call_pattern, dns_pattern, fs_patterns, spawn_patterns, is_remote, is_named,
  is_no_device, network_call, call_key, dns_query, file_candidates, spawn_candidates,
  extract_network_calls, extract_dns_queries, extract_file_operations, extract_spawns,
  profile_from_sandbox_result,
}

module _ {A : Type 0} (key : A → String) (passes : A → Bool) where
  abbrev pub Distinct : List A → Type 0
  Distinct [] = Unit
  Distinct (a ∷ rest) = All (λ b. key b ≢ key a) rest × Distinct rest

  -- The first candidate that passes with this key.
  abbrev pub first_with : String → List A → Option A
  first_with k [] = none
  first_with k (a ∷ xs) =
      let later = first_with k xs in if passes a && str_eq (key a) k then some a else later

  -- Of the candidates `xs` those that pass, for each key the first.
  abbrev pub IsFresh : List A → List A → Type 0
  IsFresh xs ys =
      All (λ b. (passes b ≡ true) × Memᴰ b xs) ys
      × Distinct ys
      × All (λ b. first_with (key b) xs ≡ some b) ys
      × ((x : A) → Memᴰ x xs → passes x ≡ true → (y : A) × Memᴰ y ys × (key y ≡ key x))

  fresh_unseen :
      (seen : List String) (xs : List A)
      → All (λ b. contains seen (key b) ≡ false) (fresh key passes seen xs)
  unfolding fresh contains
  fresh_unseen seen [] = tt
  fresh_unseen seen (a ∷ xs) = elim (Bool-cases (not (contains seen (key a)) && passes a)) [
    | inl q ↦ rw q (
      ground arith,
      All-weaken (fresh key passes (key a ∷ seen) xs) (λ b h. ground arith)
          (fresh_unseen (key a ∷ seen) xs),
    )
    | inr q ↦ rw q (fresh_unseen seen xs)
  ]

  fresh_kept :
      (seen : List String) (xs : List A)
      → All (λ b. (passes b ≡ true) × Memᴰ b xs) (fresh key passes seen xs)
  unfolding fresh
  fresh_kept seen [] = tt
  fresh_kept seen (a ∷ xs) = elim (Bool-cases (not (contains seen (key a)) && passes a)) [
    | inl q ↦ rw q (
      (ground arith, Memᴰ.head refl),
      All-weaken (fresh key passes (key a ∷ seen) xs) (λ b (h, m). (h, Memᴰ.tail m))
          (fresh_kept (key a ∷ seen) xs),
    )
    | inr q ↦
        rw q (
          All-weaken (fresh key passes seen xs) (λ b (h, m). (h, Memᴰ.tail m)) (fresh_kept seen xs))
  ]

  fresh-Distinct : (seen : List String) (xs : List A) → Distinct (fresh key passes seen xs)
  unfolding fresh contains
  fresh-Distinct seen [] = tt
  fresh-Distinct seen (a ∷ xs) = elim (Bool-cases (not (contains seen (key a)) && passes a)) [
    | inl q ↦ rw q (
      All-weaken (fresh key passes (key a ∷ seen) xs)
          (λ b h e. ground (arith, h, eq_iff (key a) (key b), e)) (fresh_unseen (key a ∷ seen) xs),
      fresh-Distinct (key a ∷ seen) xs,
    )
    | inr q ↦ rw q (fresh-Distinct seen xs)
  ]

  fresh_first :
      (seen : List String) (xs : List A)
      → All (λ b. first_with (key b) xs ≡ some b) (fresh key passes seen xs)
  unfolding fresh contains
  fresh_first seen [] = tt
  fresh_first seen (a ∷ xs) = elim (Bool-cases (not (contains seen (key a)) && passes a)) [
    | inl q ↦
        let rest = fresh key passes (key a ∷ seen) xs in
        rw q (
          ground (arith, eq_refl (key a)),
          All-of_mem (λ b. first_with (key b) (a ∷ xs) ≡ some b) rest
              (λ b m.
                skip_other b
                  (All-mem (λ b. contains (key a ∷ seen) (key b) ≡ false)
                    (fresh_unseen (key a ∷ seen) xs) m)
                  (All-mem (λ b. first_with (key b) xs ≡ some b) (fresh_first (key a ∷ seen) xs)
                    m)),
        )
    | inr q ↦ rw q (
        All-of_mem (λ b. first_with (key b) (a ∷ xs) ≡ some b) (fresh key passes seen xs)
          (λ b m.
            skip_seen b q (All-mem (λ b. contains seen (key b) ≡ false) (fresh_unseen seen xs) m)
              (All-mem (λ b. first_with (key b) xs ≡ some b) (fresh_first seen xs) m)))
  ]
    where
      skip_other :
          (b : A)
          → contains (key a ∷ seen) (key b) ≡ false
          → first_with (key b) xs ≡ some b
          → first_with (key b) (a ∷ xs) ≡ some b
      skip_other b u e = ground (arith, u, e)

      skip_seen :
          (b : A)
          → not (contains seen (key a)) && passes a ≡ false
          → contains seen (key b) ≡ false
          → first_with (key b) xs ≡ some b
          → first_with (key b) (a ∷ xs) ≡ some b
      skip_seen b q u e = elim (Bool-cases (str_eq (key a) (key b))) [
        | inl k ↦
            let same = (eq_iff (key a) (key b)).0 k in
            let seen_not : contains seen (key a) ≡ false = rw same u in ground (arith, seen_not)
        | inr k ↦ ground (arith, k, e)
      ]

  fresh_complete :
      (seen : List String) (xs : List A) (x : A)
      → Memᴰ x xs
      → passes x ≡ true
      → (contains seen (key x) ≡ true)
        ⊎ ((y : A) × Memᴰ y (fresh key passes seen xs) × (key y ≡ key x))
  unfolding fresh contains
  fresh_complete seen [] x m p = elim m [ ]
  fresh_complete seen (a ∷ xs) x m p = elim (Bool-cases (not (contains seen (key a)) && passes a)) [
    | inl q ↦ rw q (elim (mem-cons_cases m) [
      | inl e ↦ inr (a, Memᴰ.head refl, ap key (sym e))
      | inr m' ↦ elim (fresh_complete (key a ∷ seen) xs x m' p) [
        | inl s ↦ elim (Bool-cases (str_eq (key a) (key x))) [
          | inl k ↦ inr (a, Memᴰ.head refl, (eq_iff (key a) (key x)).0 k)
          | inr k ↦ inl (ground (arith, s, k))
        ]
        | inr (y, n, k) ↦ inr (y, Memᴰ.tail n, k)
      ]
    ])
    | inr q ↦ rw q (elim (mem-cons_cases m) [
      | inl e ↦
          let k : passes a ≡ true = rw e at p in
          let s : contains seen (key a) ≡ true = ground (arith, k, q) in inl (rw (← e) at s)
      | inr m' ↦ fresh_complete seen xs x m' p
    ])
  ]

  fresh-IsFresh : (xs : List A) → IsFresh xs (fresh key passes [] xs)
  unfolding contains
  fresh-IsFresh xs = (
    fresh_kept [] xs,
    fresh-Distinct [] xs,
    fresh_first [] xs,
    λ x m p. elim (fresh_complete [] xs x m p) [ inl s ↦ cc | inr y ↦ y ],
  )

module _ (finditer : String → String → List Groups) (to_int : String → ℕ) (show : ℕ → String)
    (lower strip : String → String) where
  -- A profile holds, for each address with its port, the first call that the output shows and that is not to
  -- the machine itself; for each host other than localhost, the first query; for each path of a file that is no
  -- device, the first operation in the order of the patterns; and for each executable, the first spawn, in
  -- that order too.
  pub profile_from_sandbox_result-IsFresh :
      (result : SandboxResult)
      → let output = str_append result.stdout (str_append "\n" result.stderr) in
        let p = profile_from_sandbox_result finditer to_int show lower strip result in
        IsFresh
          (call_key finditer to_int show lower strip)
          is_remote
          (map (network_call finditer to_int show lower strip) (finditer call_pattern output))
          p.network_calls
        × IsFresh
            (λ q. q.hostname)
            is_named
            (map (dns_query finditer to_int show lower strip) (finditer dns_pattern output))
            p.dns_queries
        × IsFresh
            (λ op. op.path)
            is_no_device
            (file_candidates finditer to_int show lower strip fs_patterns output)
            p.fs_ops
        × IsFresh
            (λ s. s.executable)
            (λ s. true)
            (spawn_candidates finditer to_int show lower strip spawn_patterns output)
            p.spawns
  unfolding profile_from_sandbox_result extract_network_calls extract_dns_queries
      extract_file_operations extract_spawns
  profile_from_sandbox_result-IsFresh result =
      (fresh-IsFresh _ _ _, fresh-IsFresh _ _ _, fresh-IsFresh _ _ _, fresh-IsFresh _ _ _)
