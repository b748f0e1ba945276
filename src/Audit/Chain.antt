-- ===== src/Audit/Chain.antt =====
-- audit/logger.py: what `verify_chain` finds in a log that `record` has written.
use pico_dome.Base.{
  ℕ, suc, ◌+◌, ◌-◌, ◌≤◌, String, Option, none, some, true, false, List, [], ◌∷◌, ◌++◌, take, leb,
  All, ◌≡◌, ◌⊎◌, refl, inl, inr, arith, if◌then◌else◌, Bool-cases, Option-cases, sym, ap, ◌∙◌, zero,
}
use pico_dome.Base.Text.{str_eq, eq_iff}
use pico_dome.Base.Dict.{Dict}
use pico_dome.Base.Result.{get_or}
use pico_dome.Audit.Event.{AuditEventType, AuditEvent, EventData, event_to_dict}
use pico_dome.Audit.Logger.{
  AuditLogger, Format, is_blank, last_line, read_last_hash, rotate, append_line, file_size,
  to_json_line, record_event, verify_from, verify_chain,
}

-- What is documented of `json.dumps`: it writes one line without white space around it, from which
-- `json.loads` reads the dictionary back; and of gzip, that it loses nothing.
pub record IsFormat {Line : Type 0} (f : Format Line) : Type 0 where
  pub loads-dumps : (d : EventData) → f.loads (f.dumps d) ≡ some d
  pub strip-dumps : (d : EventData) → f.strip (f.dumps d) ≡ f.dumps d
  pub dumps_nonempty : (d : EventData) → f.is_empty (f.dumps d) ≡ false
  pub gunzip-gzip : (lines : List Line) → f.gunzip (f.gzip lines) ≡ lines

module _ {Line : Type 0} (f : Format Line) where
  -- The hash that the line after these must name.
  abbrev pub end_hash : String → List Line → String
  end_hash expected [] = expected
  end_hash expected (line ∷ lines) =
      end_hash (if is_blank f line then expected else f.sha256 (f.strip line)) lines

  -- A line that is not blank, can be read, and names the hash.
  abbrev IsLinkedTo : String → Line → Type 0
  IsLinkedTo hash line =
      (is_blank f line ≡ false)
      × (d : EventData) × (f.loads (f.strip line) ≡ some d)
      × (get_or d.prev_hash "" ≡ hash)

  -- What a log with a first line that verifies is made of.
  abbrev pub IsVerifiedCons : ℕ → String → Line → List Line → Type 0
  IsVerifiedCons n expected line lines =
      ((is_blank f line ≡ true) × (verify_from f (n + 1) expected lines ≡ []))
      ⊎ ((is_blank f line ≡ false)
          × (d : EventData) × (f.loads (f.strip line) ≡ some d)
          × ((get_or d.prev_hash "" ≡ expected) ⊎ (n ≤ 1))
          × (verify_from f (n + 1) (f.sha256 (f.strip line)) lines ≡ []))

  pub verify_from-cons :
      (n : ℕ) (expected : String) (line : Line) (lines : List Line)
      → verify_from f n expected (line ∷ lines) ≡ []
      → IsVerifiedCons n expected line lines
  unfolding verify_from
  verify_from-cons n expected line lines h = elim (Bool-cases (is_blank f line)) [
    | inl b ↦ inl (b, ground arith)
    | inr b ↦ elim (Option-cases (f.loads (f.strip line))) [
      | inl e ↦ absurd (unreadable b e)
      | inr (d, e) ↦ elim (Bool-cases (str_eq (get_or d.prev_hash "") expected)) [
        | inl q ↦ inr (b, d, e, inl ((eq_iff (get_or d.prev_hash "") expected).0 q), ground arith)
        | inr q ↦ inr (b, d, e, inr (ground arith), ground arith)
      ]
    ]
  ]
    where
      unreadable : is_blank f line ≡ false → f.loads (f.strip line) ≡ none → ⊥
      unreadable b e = ground arith

  pub verify_from_of_cons :
      (n : ℕ) (expected : String) (line : Line) (lines : List Line)
      → IsVerifiedCons n expected line lines
      → verify_from f n expected (line ∷ lines) ≡ []
  unfolding verify_from
  verify_from_of_cons n expected line lines (inl (b, h)) = rw (b, verify_from) h
  verify_from_of_cons n expected line lines (inr (b, d, e, c, h)) =
      ground (arith, eq_iff (get_or d.prev_hash "") expected)

  verify_from-snoc :
      (lines : List Line) (n : ℕ) (expected : String) (line : Line)
      → verify_from f n expected lines ≡ []
      → IsLinkedTo (end_hash expected lines) line
      → verify_from f n expected (lines ++ (line ∷ [])) ≡ []
  unfolding verify_from
  verify_from-snoc [] n expected line h (some_text, d, e, same) =
      verify_from_of_cons n expected line [] (inr (some_text, d, e, inl same, refl))
  verify_from-snoc (l ∷ lines) n expected line h linked =
      elim (verify_from-cons n expected l lines h) [
        | inl (b, k) ↦
            verify_from_of_cons n expected l (lines ++ (line ∷ []))
              (inl (b, verify_from-snoc lines (n + 1) expected line k (rw b at linked)))
        | inr (b, d, e, c, k) ↦ verify_from_of_cons n expected l (lines ++ (line ∷ [])) (
            inr (
              b,
              d,
              e,
              c,
              verify_from-snoc lines (n + 1) (f.sha256 (f.strip l)) line k (rw b at linked),
            ))
      ]

  end_hash-snoc :
      (lines : List Line) (expected : String) (line : Line)
      → is_blank f line ≡ false
      → end_hash expected (lines ++ (line ∷ [])) ≡ f.sha256 (f.strip line)
  end_hash-snoc [] expected line b = rw b refl
  end_hash-snoc (l ∷ lines) expected line b = end_hash-snoc lines _ line b

  -- The text of the last line and the hash that it gives, which are both empty before any line.
  abbrev IsLast : Option Line → String → Type 0
  IsLast none hash = hash ≡ ""
  IsLast (some last) hash = (d : EventData) × (f.loads last ≡ some d) × (hash ≡ f.sha256 last)

  last_line-IsLast :
      (lines : List Line) (n : ℕ) (last : Option Line) (expected : String)
      → verify_from f n expected lines ≡ []
      → IsLast last expected
      → IsLast (last_line f last lines) (end_hash expected lines)
  unfolding last_line
  last_line-IsLast [] n last expected h k = k
  last_line-IsLast (l ∷ lines) n last expected h k = elim (verify_from-cons n expected l lines h) [
    | inl (b, h') ↦ rw b (last_line-IsLast lines (n + 1) last expected h' k)
    | inr (b, d, e, c, h') ↦
        rw b
          (last_line-IsLast lines (n + 1) (some (f.strip l)) (f.sha256 (f.strip l)) h' (d, e, refl))
  ]

  -- `_read_last_hash` gives the hash that the next line must name.
  pub read_last_hash_lem :
      (lines : List Line)
      → verify_chain f (some lines) ≡ []
      → read_last_hash f (some lines) ≡ end_hash "" lines
  unfolding verify_chain read_last_hash
  read_last_hash_lem lines h =
      named (last_line f none lines) (last_line-IsLast lines 1 none "" h refl)
    where
      named :
          (o : Option Line)
          → IsLast o (end_hash "" lines)
          → elim o as (λ _. String) [
            | none ↦ ""
            | some last ↦ elim (f.loads last) [ none ↦ "" | some d ↦ f.sha256 last ]
          ]
            ≡ end_hash "" lines
      named none k = sym k
      named (some last) (d, e, k) = rw (e, k) refl

  abbrev pub lines_of : Option (List Line) → List Line
  lines_of none = []
  lines_of (some lines) = lines

  -- A compressed file whose content verifies.
  abbrev pub IsVerifiedArchive : List Line → Type 0
  IsVerifiedArchive l = verify_chain f (some (f.gunzip l)) ≡ []

  -- The current log and the content of the rotated ones verify, and the next line will be linked to the
  -- last one.
  abbrev pub IsChained : AuditLogger Line → Type 0
  IsChained a =
      (verify_chain f (some (lines_of a.log)) ≡ [])
      × (a.prev_hash ≡ end_hash "" (lines_of a.log))
      × All IsVerifiedArchive a.rotated

  All-take {ℓ κ} :
      {A : Type ℓ} (P : A → Type κ) (n : ℕ) (xs : List A) → All P xs → All P (take n xs)
  All-take P zero xs h = tt
  All-take P (suc n) [] h = tt
  All-take P (suc n) (x ∷ xs) h = (h.0, All-take P n xs h.1)

  -- The line is added to the log, or is the first of a new one.
  append_line_cases :
      (line : Line) (a : AuditLogger Line)
      → (((append_line f line a).log ≡ some (lines_of a.log ++ (line ∷ [])))
          × ((append_line f line a).rotated ≡ a.rotated))
        ⊎ (((append_line f line a).log ≡ some (line ∷ []))
            × ((append_line f line a).rotated
                ≡ f.gzip (lines_of a.log) ∷ take (a.rotate_count - 1) a.rotated))
  unfolding append_line rotate
  append_line_cases line a = elim (Option-cases a.log) [
    | inl e ↦ inl (ground arith, ground arith)
    | inr (lines, e) ↦ elim (Bool-cases (leb a.max_bytes (file_size f lines))) [
      | inl q ↦ inr (ground arith, ground arith)
      | inr q ↦ inl (ground arith, ground arith)
    ]
  ]

  module _ (laws : IsFormat f) where
    to_json_line-IsLinkedTo : (e : AuditEvent) → IsLinkedTo e.prev_hash (to_json_line f e)
    unfolding to_json_line event_to_dict
    to_json_line-IsLinkedTo e =
        let d = event_to_dict e in
        let same = laws.strip-dumps d in
        (ap f.is_empty same ∙ laws.dumps_nonempty d, d, ap f.loads same ∙ laws.loads-dumps d, refl)

    single_verified :
        (hash : String) (line : Line)
        → IsLinkedTo hash line
        → verify_chain f (some (line ∷ [])) ≡ []
    unfolding verify_chain
    single_verified hash line (b, d, e, same) =
        verify_from_of_cons 1 "" line [] (inr (b, d, e, inr (omega arith), refl))

    append_line-IsChained :
        (line : Line) (a : AuditLogger Line)
        → IsChained a
        → IsLinkedTo a.prev_hash line
        → f.strip line ≡ line
        → IsChained (record (append_line f line a) { prev_hash = f.sha256 line })
    append_line-IsChained line a h linked stripped = elim (append_line_cases line a) [
      | inl (e, r) ↦ rw (e, r) (added, sym (last (lines_of a.log)), h.2)
      | inr (e, r) ↦
          rw (e, r)
            (
              single_verified a.prev_hash line linked,
              sym (last []),
              (
                rw (laws.gunzip-gzip) h.0,
                All-take IsVerifiedArchive (a.rotate_count - 1) a.rotated h.2,
              ),
            )
    ]
      where
        added : verify_chain f (some (lines_of a.log ++ (line ∷ []))) ≡ []
        added =
            unfold verify_chain in
            verify_from-snoc (lines_of a.log) 1 "" line h.0 (rw h.1 at linked)

        last : (lines : List Line) → end_hash "" (lines ++ (line ∷ [])) ≡ f.sha256 line
        last lines = end_hash-snoc lines "" line linked.0 ∙ ap f.sha256 stripped

    -- A record keeps the chain, whether or not it rotates the log.
    pub record_event-IsChained :
        (event_id timestamp : String) (event_type : AuditEventType) (actor detail target : String)
        (metadata : Dict String) (a : AuditLogger Line)
        → IsChained a
        → IsChained (record_event f event_id timestamp event_type actor detail target metadata a).0
    unfolding record_event
    record_event-IsChained event_id timestamp event_type actor detail target metadata a h =
        append_line-IsChained (to_json_line f event) a h (to_json_line-IsLinkedTo event)
          (unfold to_json_line in laws.strip-dumps (event_to_dict event))
      where
        event : AuditEvent
        event = (record_event f event_id timestamp event_type actor detail target metadata a).1
