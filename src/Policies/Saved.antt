-- ===== src/Policies/Saved.antt =====
-- policy_versioned/store.py: what `save` and `rollback` leave in a directory whose version files are sound.
use pico_dome.Base.{
  ℕ, ◌+◌, ◌≤◌, ◌<◌, max, String, Option, none, some, true, false, leb, Memᴰ, ◌⊎◌, List, [], ◌∷◌,
  ◌==◌, All, filter, ◌≡◌, ◌≢◌, refl, inl, inr, arith, ap, ◌∙◌, if◌then◌else◌, Bool-cases,
}
use pico_dome.Base.Dict.{lookup-insert_self}
use pico_dome.Base.Text.{str_eq, eq_refl}
use pico_dome.Base.Result.{ok}
use pico_dome.L3.Models.{Policy, policy_to_dict}
use pico_dome.Policies.Version.{
  PolicyVersion, VersionData, version_to_dict, read_version_file, read_version_file-version_to_dict,
}
use pico_dome.Policies.Store.{
  VersionedPolicyStore, StoreParts, dir_of, find_version, read_versions, list_versions, highest,
  next_version, write_version, make_version, put_version, save, load, read_found, restore, rollback,
  has_wrong_hash, verify_integrity,
}

next_version_lem : (vs : List PolicyVersion) → next_version vs ≡ highest vs + 1
unfolding highest
next_version_lem [] = refl
next_version_lem (v ∷ vs) = refl

-- The number after the highest of the files, and 1 where there is none.
abbrev pub IsNext : List (ℕ × Option VersionData) → ℕ → Type 0
IsNext files n =
    All (λ p. p.0 < n) files
    × (((files ≡ []) × (n ≡ 1)) ⊎ ((p : ℕ × Option VersionData) × Memᴰ p files × (n ≡ p.0 + 1)))

module _ (x : StoreParts) where
  -- A version file of a policy of this name holds the version of its number, with its hash.
  abbrev pub IsVersionOf : String → PolicyVersion → Type 0
  IsVersionOf name v =
      (v.policy.name ≡ name) × (v.content_hash ≡ x.hash_policy (policy_to_dict v.policy))

  abbrev pub IsVersionFile : String → ℕ × Option VersionData → Type 0
  IsVersionFile name p =
      (v : PolicyVersion) × (p.1 ≡ some (version_to_dict v))
      × (v.version ≡ p.0)
      × IsVersionOf name v

  abbrev pub IsSound : String → VersionedPolicyStore → Type 0
  IsSound name s = All (IsVersionFile name) (dir_of name s).versions

  -- The highest number of the versions in the files is that of one of them.
  read_versions-highest :
      (name : String) (files : List (ℕ × Option VersionData))
      → All (IsVersionFile name) files
      → (vs : List PolicyVersion) × (read_versions files ≡ ok vs)
        × All (IsVersionOf name) vs
        × All (λ p. p.0 ≤ highest vs) files
        × (((files ≡ []) × (highest vs ≡ 0))
            ⊎ ((p : ℕ × Option VersionData) × Memᴰ p files × (highest vs ≡ p.0)))
  unfolding read_versions highest
  read_versions-highest name [] h = ([], refl, tt, tt, inl (refl, refl))
  read_versions-highest name ((k, file) ∷ files) ((v, e, n, own), h) =
      let (vs, read, owned, below, found) = read_versions-highest name files h in
      let r : read_version_file file ≡ ok (some v) = rw e (read_version_file-version_to_dict v) in
      (
        v ∷ vs,
        rw (r, read) refl,
        (own, owned),
        (
          omega (arith, n),
          raised (highest vs) (max v.version (highest vs)) (omega arith) files below,
        ),
        inr (elim found [
          | inl (_, zero_left) ↦ ((k, file), Memᴰ.head refl, omega (arith, n, zero_left))
          | inr (p, m, top) ↦ elim (Bool-cases (leb (highest vs) v.version)) [
            | inl l ↦ ((k, file), Memᴰ.head refl, top_first (highest vs) v.version k n l)
            | inr l ↦ (p, Memᴰ.tail m, top_rest (highest vs) v.version p.0 top l)
          ]
        ]),
      )
    where
      top_first : (h v k : ℕ) → v ≡ k → leb h v ≡ true → max v h ≡ k
      top_first h v k n l = ground (arith, n, l)

      top_rest : (h v k : ℕ) → h ≡ k → leb h v ≡ false → max v h ≡ k
      top_rest h v k e l = ground (arith, e, l)

      raised :
          (a b : ℕ)
          → a ≤ b
          → (files : List (ℕ × Option VersionData)) → All (λ p. p.0 ≤ a) files
          → All (λ p. p.0 ≤ b) files
      raised a b l [] h = tt
      raised a b l (p ∷ ps) h = (omega (arith, l, h.0), raised a b l ps h.1)

  read_versions-All :
      (name : String) (files : List (ℕ × Option VersionData))
      → All (IsVersionFile name) files
      → (vs : List PolicyVersion) × (read_versions files ≡ ok vs)
        × All (IsVersionOf name) vs
        × IsNext files (next_version vs)
  read_versions-All name files h =
      let (vs, read, owned, below, found) = read_versions-highest name files h in
      (
        vs,
        read,
        owned,
        (
          later vs files below,
          elim found [
            | inl (none_left, e) ↦ inl (none_left, next_version_lem vs ∙ ap (λ n. n + 1) e)
            | inr (p, m, e) ↦ inr (p, m, next_version_lem vs ∙ ap (λ n. n + 1) e)
          ],
        ),
      )
    where
      later :
          (vs : List PolicyVersion) (files : List (ℕ × Option VersionData))
          → All (λ p. p.0 ≤ highest vs) files
          → All (λ p. p.0 < next_version vs) files
      later vs [] h = tt
      later vs (p ∷ ps) h = (omega (arith, h.0, next_version_lem vs), later vs ps h.1)

  find_version-write_version :
      (n m : ℕ) (file : Option VersionData) (files : List (ℕ × Option VersionData))
      → find_version m (write_version x n file files)
        ≡ (if n == m then some file else find_version m files)
  unfolding find_version write_version
  find_version-write_version n m file [] = refl
  find_version-write_version n m file ((k, old) ∷ files) =
      ground (arith, find_version-write_version n m file files)

  find_version-none :
      (n : ℕ) (files : List (ℕ × Option VersionData))
      → All (λ p. p.0 < n) files
      → find_version n files ≡ none
  unfolding find_version
  find_version-none n [] h = refl
  find_version-none n ((k, file) ∷ files) h = ground (arith, h.0, find_version-none n files h.1)

  write_version-All :
      (name : String) (n : ℕ) (file : Option VersionData) (files : List (ℕ × Option VersionData))
      → IsVersionFile name (n, file)
      → All (IsVersionFile name) files
      → All (IsVersionFile name) (write_version x n file files)
  unfolding write_version
  write_version-All name n file [] f h = (f, tt)
  write_version-All name n file ((k, old) ∷ files) f h = elim (Bool-cases (k == n)) [
    | inl b ↦ rw b (f, h.1)
    | inr b ↦ elim (Bool-cases (x.name_leb n k)) [
      | inl c ↦ rw (b, c) (f, h)
      | inr c ↦ rw (b, c) (h.0, write_version-All name n file files f h.1)
    ]
  ]

  dir_of-put_version :
      (pv : PolicyVersion) (s : VersionedPolicyStore)
      → dir_of pv.policy.name (put_version x pv s) ≡ record {
        versions =
            write_version x pv.version
              (some (version_to_dict pv))
              (dir_of pv.policy.name s).versions;
        latest = some (some (version_to_dict pv));
      }
  unfolding put_version dir_of
  dir_of-put_version pv s = rw (dir_of, lookup-insert_self) refl

  -- What holds after a version was written to the directory of its policy.
  abbrev pub IsSaved : VersionedPolicyStore → VersionedPolicyStore → PolicyVersion → Type 0
  IsSaved s s' pv =
      (load pv.policy.name none s' ≡ ok (some pv))
      × (load pv.policy.name (some pv.version) s' ≡ ok (some pv))
      × (load pv.policy.name (some pv.version) s ≡ ok none)
      × ((n : ℕ)
          → n ≢ pv.version
          → load pv.policy.name (some n) s' ≡ load pv.policy.name (some n) s)
      × IsSound pv.policy.name s'
      × (verify_integrity x pv.policy.name s' ≡ ok [])

  no_wrong_hash :
      (name : String) (vs : List PolicyVersion)
      → All (IsVersionOf name) vs
      → filter (has_wrong_hash x) vs ≡ []
  unfolding filter
  no_wrong_hash name [] h = refl
  no_wrong_hash name (v ∷ vs) h =
      let right : str_eq v.content_hash (x.hash_policy (policy_to_dict v.policy)) ≡ true =
        rw h.0.1 (eq_refl _) in
      let rest = no_wrong_hash name vs h.1 in
      let fine : has_wrong_hash x v ≡ false = ground (arith, right) in rw (fine, rest) refl

  verify_integrity_lem :
      (name : String) (s : VersionedPolicyStore)
      → IsSound name s
      → verify_integrity x name s ≡ ok []
  unfolding verify_integrity list_versions
  verify_integrity_lem name s h =
      let (vs, read, owned, _) = read_versions-All name (dir_of name s).versions h in
      rw (read, no_wrong_hash name vs owned) refl

  put_version-IsSaved :
      (pv : PolicyVersion) (s : VersionedPolicyStore)
      → IsVersionOf pv.policy.name pv
      → IsSound pv.policy.name s
      → All (λ p. p.0 < pv.version) (dir_of pv.policy.name s).versions
      → IsSaved s (put_version x pv s) pv
  unfolding load
  put_version-IsSaved pv s own h fresh =
      let name = pv.policy.name in
      let files = (dir_of name s).versions in
      let file = some (version_to_dict pv) in
      let dir = dir_of-put_version pv s in
      let found = λ (n : ℕ).
        ap (λ d. find_version n d.versions) dir
        ∙ find_version-write_version pv.version n file files in
      let sound : IsSound name (put_version x pv s) =
        rw dir (write_version-All name pv.version file files (pv, refl, refl, own) h) in
      (
        rw (load, dir) (read_version_file-version_to_dict pv),
        ap read_found (found pv.version ∙ hit) ∙ read_found_lem pv,
        ap read_found (find_version-none pv.version files fresh) ∙ (unfold read_found in refl),
        λ n ne. ap read_found (found n ∙ miss n ne),
        sound,
        verify_integrity_lem name (put_version x pv s) sound,
      )
    where
      files : List (ℕ × Option VersionData)
      files = (dir_of pv.policy.name s).versions

      hit :
          (if pv.version == pv.version
            then some (some (version_to_dict pv))
            else find_version pv.version files)
          ≡ some (some (version_to_dict pv))
      hit = ground arith

      miss :
          (n : ℕ)
          → n ≢ pv.version
          → (if pv.version == n then some (some (version_to_dict pv)) else find_version n files)
            ≡ find_version n files
      miss n ne = ground (arith, ne)

      read_found_lem :
          (v : PolicyVersion) → read_found (some (some (version_to_dict v))) ≡ ok (some v)
      read_found_lem v = unfold read_found in read_version_file-version_to_dict v

  -- In a sound directory `save` gives the policy the number after the highest of the files, and 1 where there
  -- is none. The new version is
  -- found under the number and as the latest, each other version as before, the directory stays sound and
  -- passes `verify_integrity`.
  pub save-IsSaved :
      (now author change_description : String) (policy : Policy) (s : VersionedPolicyStore)
      → IsSound policy.name s
      → (s' : VersionedPolicyStore) × (pv : PolicyVersion) × (save x now policy author
            change_description s
          ≡ ok (s', pv))
        × (pv.policy ≡ policy)
        × IsNext (dir_of policy.name s).versions pv.version
        × IsSaved s s' pv
  unfolding save list_versions
  save-IsSaved now author change_description policy s h =
      let (vs, read, _, next) = read_versions-All policy.name (dir_of policy.name s).versions h in
      let pv = make_version x now policy author change_description (next_version vs) in
      (
        put_version x pv s,
        pv,
        rw read refl,
        refl,
        next,
        put_version-IsSaved pv s (refl, refl) h next.0,
      )

  -- In a sound directory a rollback to a version that is found saves its policy again as a new version,
  -- which then is the latest; each version is found as before.
  pub rollback-IsSaved :
      (now name author : String) (n : ℕ) (s : VersionedPolicyStore) {v : PolicyVersion}
      → IsSound name s
      → load name (some n) s ≡ ok (some v)
      → v.policy.name ≡ name
      → (s' : VersionedPolicyStore) × (pv : PolicyVersion) × (rollback x now name n author s
          ≡ ok (s', some pv))
        × (pv.policy ≡ v.policy)
        × IsSaved s s' pv
  unfolding rollback restore
  rollback-IsSaved now name author n s {v} h found named =
      let (s', pv, saved, same, _, kept) =
        save-IsSaved now author (x.rollback_text n) v.policy s (rw named h) in
      (s', pv, rw (found, saved) refl, same, kept)
