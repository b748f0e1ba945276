-- ===== src/Daemon/Submitted.antt =====
-- daemon/server.py: what `_handle_submit_scan` leaves in the store, and what it answers.
use pico_dome.Base.{String, none, some, Bool, List, ◌≡◌, ◌⊎◌, refl}
use pico_dome.Base.Dict.{lookup}
use pico_dome.Daemon.Access.{ErrorCode, scan_failed}
use pico_dome.Daemon.Job.{pending, completed, failed, ScanJob}
use pico_dome.Daemon.Persistent.{JobFormat, PersistentScanJobStore, get}
use pico_dome.Daemon.View.{jobs_of}
use pico_dome.Daemon.Submit.{
  SubmitData, ScanOutcome, Run, ran, raised, Answer, refused, created, Sandbox, resolve_policy,
  backend_error,
}

module _ {R Policy Line : Type 0} (f : JobFormat R Line) (x : Sandbox R Policy) where
  abbrev pub run_of : List String → SubmitData → Run R
  run_of command d = x.sandbox_run command (resolve_policy f x d.policy) d.backend

  -- What the job of an accepted command is, and what the answer: it waits, if the backend cannot be taken,
  -- has failed, if the run or the sending of its result raised an exception, or is complete, with the
  -- result of the run and of the answer.
  abbrev pub IsOutcome : Bool → SubmitData → ScanJob R → Answer R → Type 0
  IsOutcome is_enterprise d j a =
      ((e : ErrorCode) × (backend_error f x is_enterprise d.backend ≡ some e)
        × (j.status ≡ pending)
        × (a ≡ refused e))
      ⊎ ((m : String) × ((run_of j.command d ≡ raised m)
            ⊎ ((o : ScanOutcome R) × (run_of j.command d ≡ ran o)
                × (x.send_json o.result ≡ some m)))
          × (j.status ≡ failed)
          × (j.error ≡ some m)
          × (a ≡ refused scan_failed))
      ⊎ ((o : ScanOutcome R) × (run_of j.command d ≡ ran o)
          × (x.send_json o.result ≡ none)
          × (j.status ≡ completed)
          × (j.result ≡ some o.result)
          × (a ≡ created o.result))

  found : (i : String) (s : PersistentScanJobStore R Line) → (get f i s).1 ≡ lookup i (jobs_of f s)
  unfolding get
  found i s = refl
