-- ===== src/Daemon/Sample.antt =====
-- A job file whose lines are jobs, for the tests of the stores.
use pico_dome.Base.{String, some, Bool, true, false, [], ◌∷◌, refl}
use pico_dome.Daemon.Job.{ScanJob}
use pico_dome.Daemon.Persistent.{
  Loaded, invalid_json, no_job, job_object, JobFormat, PersistentScanJobStore, new_store,
}
use pico_dome.Daemon.Restart.{IsJobFormat}

pub data JobLine : Type 0 where
  blank noise number : JobLine
  json : ScanJob String → JobLine

abbrev pub job_of : JobLine → Loaded String
job_of (json j) = job_object j
job_of number = no_job
job_of _ = invalid_json

abbrev pub is_blank : JobLine → Bool
is_blank blank = true
is_blank _ = false

abbrev pub format : JobFormat String JobLine
format = record {
  strip = λ l. l;
  is_empty = is_blank;
  loads = job_of;
  dumps = json;
  file_bytes = λ lines. 100;
}

pub format-IsJobFormat : IsJobFormat format
format-IsJobFormat = record {
  loads-dumps = λ j. refl;
  strip-dumps = λ j. refl;
  dumps_nonempty = λ j. refl;
}

abbrev pub empty_store : PersistentScanJobStore String JobLine
empty_store = new_store 3 (some (blank ∷ noise ∷ []))
