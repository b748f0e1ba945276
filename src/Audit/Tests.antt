-- ===== src/Audit/Tests.antt =====
-- A log whose lines are the texts of three dictionaries, and the theorems at it. The hash of a line is
-- the line with a mark before it.
use Prim.Native.String.{◌++◌ as str_append}
use pico_dome.Base.{
  String, Option, none, some, Bool, true, false, List, [], ◌∷◌, All, ◌≡◌, ◌≢◌, refl, arith, sym,
}
use mathlib.Core.List.{Memᴰ}
use pico_dome.Base.Text.{str_eq, eq_iff}
use pico_dome.Base.Result.{ok, get_or}
use pico_dome.Audit.Event.{scan_start, auth_failure, EventData}
use pico_dome.Audit.Logger.{Format, prev_hash_mismatch, new_logger, verify_chain}
use pico_dome.Audit.Chain.{IsFormat, lines_of}
use pico_dome.Audit.Tamper.{
  Request, record_all, record_all_verified, IsCollisionFree, verify_chain_determined,
  verify_chain_replaced,
}
use pico_dome.Audit.Query.{Filters, query}

-- A line of the sample file.
data SampleLine : Type 0 where
  blank noise : SampleLine
  json : EventData → SampleLine

abbrev read : SampleLine → Option EventData
read (json d) = some d
read _ = none

abbrev sample_empty : SampleLine → Bool
sample_empty blank = true
sample_empty _ = false

abbrev sample_hash : SampleLine → String
sample_hash (json d) = str_append "#" (get_or d.actor "")
sample_hash _ = ""

-- A compressed file starts with a line that is no JSON.
abbrev tail_of : List SampleLine → List SampleLine
tail_of [] = []
tail_of (line ∷ lines) = lines

abbrev format : Format SampleLine
format = record {
  strip = λ l. l;
  is_empty = sample_empty;
  loads = read;
  dumps = json;
  sha256 = sample_hash;
  line_bytes = λ _. 100;
  gzip = λ lines. noise ∷ lines;
  gunzip = tail_of;
}

format-IsFormat : IsFormat format
format-IsFormat = record {
  loads-dumps = λ d. refl;
  strip-dumps = λ d. refl;
  dumps_nonempty = λ d. refl;
  gunzip-gzip = λ lines. refl;
}

abbrev event_data : String → String → EventData
event_data actor hash = record {
  event_type = some "scan_start";
  actor = some actor;
  detail = some "";
  target = some "";
  metadata = some [];
  event_id = some "";
  timestamp = some "";
  prev_hash = some hash;
}

-- The hash of a line is its actor after a mark.
abbrev first : SampleLine
first = json (event_data "a" "")

abbrev second : SampleLine
second = json (event_data "b" "#a")

abbrev forged : SampleLine
forged = json (event_data "c" "#a")

abbrev request : String → Request
request actor = record {
  event_id = "";
  timestamp = "";
  event_type = auth_failure;
  actor = actor;
  detail = "";
  target = "";
  metadata = [];
}

-- A line that names another hash is found.
verify_run :
    verify_chain format (some (first ∷ json (event_data "b" "#x") ∷ []))
    ≡ prev_hash_mismatch 2 "#a" "#x" ∷ []
unfolding verify_chain
verify_run = refl

-- Only the first of two matching events is returned for a limit of one.
abbrev all_events : Filters
all_events = record { event_type = none; actor = ""; target = ""; since = ""; until = "" }

query_run :
    query format str_eq 1 all_events (some (first ∷ second ∷ []))
    ≡ ok (
        record {
          event_type = scan_start;
          actor = "a";
          detail = "";
          target = "";
          metadata = [];
          event_id = "";
          timestamp = "";
          prev_hash = "";
        }
        ∷ [])
unfolding query
query_run = refl

record_all_verified_example :
    let a =
      record_all format
        (request "u" ∷ request "v" ∷ [])
        (new_logger format 150 3 (some (first ∷ [])) []) in
    (verify_chain format (some (lines_of format a.log)) ≡ [])
    × All (λ l. verify_chain format (some (format.gunzip l)) ≡ []) a.rotated
unfolding verify_chain
record_all_verified_example =
    record_all_verified format format-IsFormat 150 3 (some (first ∷ []))
      (request "u" ∷ request "v" ∷ []) refl

verify_chain_determined_example :
    ◌≡◌ {A = List SampleLine} (first ∷ second ∷ []) (first ∷ second ∷ [])
unfolding verify_chain
verify_chain_determined_example =
    verify_chain_determined format (second ∷ []) (second ∷ []) first first
      ((refl, refl), ((refl, refl), tt)) ((refl, refl), ((refl, refl), tt))
      (λ x y m k e. free x y m k e) refl refl refl refl
  where
    differ : ◌≢◌ {A = String} "#a" "#b"
    differ e = ground (arith, eq_iff "#a" "#b", e)

    free : IsCollisionFree format (first ∷ second ∷ []) (first ∷ second ∷ [])
    free x y (Memᴰ.head a) (Memᴰ.head b) e = cc
    free x y (Memᴰ.head a) (Memᴰ.tail (Memᴰ.head b)) e = absurd (differ (rw (a, b) at e))
    free x y (Memᴰ.head a) (Memᴰ.tail (Memᴰ.tail n)) e = elim n [ ]
    free x y (Memᴰ.tail (Memᴰ.tail m)) n e = elim m [ ]
    free x y (Memᴰ.tail (Memᴰ.head a)) (Memᴰ.tail (Memᴰ.tail n)) e = elim n [ ]
    free x y (Memᴰ.tail (Memᴰ.head a)) (Memᴰ.head b) e = absurd (differ (sym (rw (a, b) at e)))
    free x y (Memᴰ.tail (Memᴰ.head a)) (Memᴰ.tail (Memᴰ.head b)) e = cc

verify_chain_replaced_example : verify_chain format (some (first ∷ forged ∷ [])) ≡ []
unfolding verify_chain
verify_chain_replaced_example =
    verify_chain_replaced format (first ∷ []) second forged (event_data "b" "#a")
      (event_data "c" "#a") (refl, refl) (refl, refl) refl refl refl refl
