-- ===== src/Audit/Query.antt =====
-- audit/logger.py: `query`. Whether one text is part of another is an argument.
use pico_dome.Base.{
  ℕ, zero, suc, ◌+◌, ◌-◌, String, Option, none, some, Bool, true, false, ◌&&◌, ◌||◌, List, [], ◌∷◌,
  ◌++◌, length, length-append, take, leb, max, ◌≡◌, refl, inl, inr, arith, if◌then◌else◌,
  Bool-cases, Option-cases, sym,
}
use mathlib.Core.List.{reverse, append-nil, append_assoc}
use pico_dome.Base.Text.{str_eq, str_leb}
use pico_dome.Base.Result.{Result, ok, err, ◌>>=◌, get_or}
use pico_dome.Audit.Event.{AuditEventType, event_value, AuditEvent, EventData, event_from_dict}
use pico_dome.Audit.Logger.{Format}

-- The filters; an empty text, as no text, filters nothing.
pub record Filters : Type 0 where
  pub event_type : Option AuditEventType
  pub actor : String
  pub target : String
  pub since : String
  pub until : String

module _ {Line : Type 0} (f : Format Line) (is_part : String → String → Bool) where
  -- An event of this type and with these texts passes each of the filters.
  unfoldable pub passes : Filters → EventData → Bool
  unfolding event_value str_leb
  passes q d =
      elim q.event_type [
        | none ↦ true
        | some t ↦ elim d.event_type [ none ↦ false | some text ↦ str_eq text (event_value t) ]
      ]
      && (str_eq q.actor "" || is_part q.actor (get_or d.actor ""))
      && (str_eq q.target "" || is_part q.target (get_or d.target ""))
      && (str_eq q.since "" || str_leb q.since (get_or d.timestamp ""))
      && (str_eq q.until "" || str_leb (get_or d.timestamp "") q.until)

  -- The loop over the lines, with the events found so far; it ends when these are `limit` or more.
  unfoldable pub query_from : ℕ → Filters → List AuditEvent → List Line → Result (List AuditEvent)
  unfolding passes event_from_dict
  query_from limit q found [] = ok found
  query_from limit q found (line ∷ lines) =
      let l = f.strip line in
      let skip = query_from limit q found lines in
      if f.is_empty l then skip else elim (f.loads l) [
        | none ↦ skip
        | some d ↦
            if passes q d
            then (do
              e ← event_from_dict d
              let found' = found ++ (e ∷ [])
              if leb limit (length found') then ok found' else query_from limit q found' lines)
            else skip
      ]

  -- The events are returned in the reverse of their order in the log.
  unfoldable pub query : ℕ → Filters → Option (List Line) → Result (List AuditEvent)
  unfolding query_from
  query limit q none = ok []
  query limit q (some lines) = do found ← query_from limit q [] lines; ok (reverse found)

  -- The events of the lines that pass the filters, in the order of the log, where each can be read.
  abbrev pub matching : Filters → List Line → List AuditEvent
  matching q [] = []
  matching q (line ∷ lines) =
      if f.is_empty (f.strip line) then matching q lines else elim (f.loads (f.strip line)) [
        | none ↦ matching q lines
        | some d ↦
            if passes q d
            then elim (event_from_dict d) [ ok e ↦ e ∷ matching q lines | err _ ↦ matching q lines ]
            else matching q lines
      ]

  -- Each line that passes the filters is an event of a known type.
  abbrev pub IsReadable : Filters → List Line → Type 0
  IsReadable q [] = Unit
  IsReadable q (line ∷ lines) =
      ((d : EventData)
        → f.loads (f.strip line) ≡ some d
        → passes q d ≡ true
        → (e : AuditEvent) × (event_from_dict d ≡ ok e))
      × IsReadable q lines

  query_from_lem :
      (limit k : ℕ) (q : Filters) (found : List AuditEvent) (lines : List Line)
      → IsReadable q lines
      → length found + suc k ≡ max 1 limit
      → query_from limit q found lines ≡ ok (found ++ take (suc k) (matching q lines))
  unfolding query_from
  query_from_lem limit k q found [] h size = rw (append-nil found) refl
  query_from_lem limit k q found (line ∷ lines) h size =
      elim (Bool-cases (f.is_empty (f.strip line))) [
        | inl b ↦ rw b (query_from_lem limit k q found lines h.1 size)
        | inr b ↦ elim (Option-cases (f.loads (f.strip line))) [
          | inl e ↦ rw (b, e) (query_from_lem limit k q found lines h.1 size)
          | inr (d, e) ↦ elim (Bool-cases (passes q d)) [
            | inr p ↦ rw (b, e, p) (query_from_lem limit k q found lines h.1 size)
            | inl p ↦
                let (ev, r) = h.0 d e p in
                rw (b, e, p, r)
                  (taken k ev size (λ j. query_from_lem limit j q (found ++ (ev ∷ [])) lines h.1))
          ]
        ]
      ]
    where
      taken :
          (k : ℕ) (ev : AuditEvent)
          → length found + suc k ≡ max 1 limit
          → ((j : ℕ)
              → length (found ++ (ev ∷ [])) + suc j ≡ max 1 limit
              → query_from limit q (found ++ (ev ∷ [])) lines
                ≡ ok ((found ++ (ev ∷ [])) ++ take (suc j) (matching q lines)))
          → (if leb limit (length (found ++ (ev ∷ [])))
              then ok (found ++ (ev ∷ []))
              else query_from limit q (found ++ (ev ∷ [])) lines)
            ≡ ok (found ++ (ev ∷ take k (matching q lines)))
      taken zero ev size next = let long = length-append found (ev ∷ []) in ground (arith, long)
      taken (suc j) ev size next =
          let long = length-append found (ev ∷ []) in
          let go = next j (omega (arith, long, size)) in
          let more : leb limit (length (found ++ (ev ∷ []))) ≡ false = ground (arith, long, size) in
          rw (more, go, append_assoc) refl

  -- `query` returns the first `limit` matching events of the log, in the reverse order; with a limit of
  -- zero it returns one.
  pub query_oldest :
      (limit : ℕ) (q : Filters) (lines : List Line)
      → IsReadable q lines
      → query limit q (some lines) ≡ ok (reverse (take (max 1 limit) (matching q lines)))
  unfolding query
  query_oldest limit q lines h =
      let size : max 1 limit ≡ suc (max 1 limit - 1) = omega arith in
      let found = query_from_lem limit (max 1 limit - 1) q [] lines h (omega arith) in
      rw (found, sym size) refl
