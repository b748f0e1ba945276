-- ===== src/Audit/Logger.antt =====
-- audit/logger.py: `AuditLogger`. A file is the list of its lines, a compressed one too; gzip, the length of a
-- line, its SHA-256, `strip`, `json.loads` and `json.dumps` of a dictionary are arguments, as are the new id
-- and the time. The notary, the sinks and the permissions of the file do not change the log.
use pico_dome.Base.{
  ℕ, ◌+◌, ◌-◌, String, Option, none, some, Bool, not, ◌&&◌, List, [], ◌∷◌, ◌++◌, take, ltb, leb,
  if◌then◌else◌,
}
use pico_dome.Base.Text.{str_eq}
use pico_dome.Base.Dict.{Dict}
use pico_dome.Base.Result.{get_or}
use pico_dome.Audit.Event.{AuditEventType, AuditEvent, EventData, event_to_dict}

pub record AuditLogger (Line : Type 0) : Type 0 where
  pub log : Option (List Line)
  pub rotated : List (List Line)
  pub max_bytes : ℕ
  pub rotate_count : ℕ
  pub prev_hash : String

pub data Violation : Type 0 where
  not_found : Violation
  invalid_json : ℕ → Violation
  prev_hash_mismatch : ℕ → String → String → Violation

-- What the code takes from outside: of a line of text, of a dictionary, of bytes. The lines of a
-- compressed file are those of its bytes.
pub record Format (Line : Type 0) : Type 0 where
  pub strip : Line → Line
  pub is_empty : Line → Bool
  pub loads : Line → Option EventData
  pub dumps : EventData → Line
  pub sha256 : Line → String
  pub line_bytes : Line → ℕ
  pub gzip : List Line → List Line
  pub gunzip : List Line → List Line

module _ {Line : Type 0} (f : Format Line) where
  abbrev pub is_blank : Line → Bool
  is_blank line = f.is_empty (f.strip line)

  unfoldable pub file_size : List Line → ℕ
  file_size [] = 0
  file_size (line ∷ lines) = f.line_bytes line + 1 + file_size lines

  -- The last line that is not blank.
  unfoldable pub last_line : Option Line → List Line → Option Line
  last_line last [] = last
  last_line last (line ∷ lines) =
      last_line (if is_blank line then last else some (f.strip line)) lines

  -- `_read_last_hash`
  unfoldable pub read_last_hash : Option (List Line) → String
  unfolding last_line
  read_last_hash none = ""
  read_last_hash (some lines) = elim (last_line none lines) [
    | none ↦ ""
    | some last ↦ elim (f.loads last) [ none ↦ "" | some d ↦ f.sha256 last ]
  ]

  -- `__init__`
  unfoldable pub new_logger : ℕ → ℕ → Option (List Line) → List (List Line) → AuditLogger Line
  unfolding read_last_hash
  new_logger max_bytes rotate_count log rotated = record {
    log = log;
    rotated = rotated;
    max_bytes = max_bytes;
    rotate_count = rotate_count;
    prev_hash = read_last_hash log;
  }

  -- `_rotate`, of a log with the given lines: the numbered files move up by one, where the last of them is
  -- lost, and the log is compressed into the first.
  unfoldable pub rotate : List Line → AuditLogger Line → AuditLogger Line
  rotate lines a = record a {
    log = some [];
    rotated = f.gzip lines ∷ take (a.rotate_count - 1) a.rotated;
  }

  -- `_append_line`
  unfoldable pub append_line : Line → AuditLogger Line → AuditLogger Line
  unfolding rotate file_size
  append_line line a = elim a.log [
    | none ↦ record a { log = some (line ∷ []) }
    | some lines ↦
        if leb a.max_bytes (file_size lines)
        then record (rotate lines a) { log = some (line ∷ []) }
        else record a { log = some (lines ++ (line ∷ [])) }
  ]

  -- `AuditEvent.to_json_line`
  unfoldable pub to_json_line : AuditEvent → Line
  unfolding event_to_dict
  to_json_line e = f.dumps (event_to_dict e)

  unfoldable pub record_event :
      String
      → String
      → AuditEventType
      → String
      → String
      → String
      → Dict String
      → AuditLogger Line
      → AuditLogger Line × AuditEvent
  unfolding append_line to_json_line
  record_event event_id timestamp event_type actor detail target metadata a =
      let event : AuditEvent = record {
        event_type = event_type;
        actor = actor;
        detail = detail;
        target = target;
        metadata = metadata;
        event_id = event_id;
        timestamp = timestamp;
        prev_hash = a.prev_hash;
      } in
      let line = to_json_line event in
      (record (append_line line a) { prev_hash = f.sha256 line }, event)

  -- The loop of `verify_chain`, from the line number and the expected hash.
  unfoldable pub verify_from : ℕ → String → List Line → List Violation
  verify_from n expected [] = []
  verify_from n expected (line ∷ lines) =
      let l = f.strip line in
      let next = verify_from (n + 1) (f.sha256 l) lines in
      let same = verify_from (n + 1) expected lines in
      if f.is_empty l then same else elim (f.loads l) [
        | none ↦ invalid_json n ∷ same
        | some d ↦
            let recorded = get_or d.prev_hash "" in
            if ltb 1 n && not (str_eq recorded expected)
            then prev_hash_mismatch n expected recorded ∷ next
            else next
      ]

  unfoldable pub verify_chain : Option (List Line) → List Violation
  unfolding verify_from
  verify_chain none = not_found ∷ []
  verify_chain (some lines) = verify_from 1 "" lines
