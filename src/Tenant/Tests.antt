-- ===== src/Tenant/Tests.antt =====
-- Sample tenants and calls, with names as they are, and the theorems at them.
use pico_dome.Base.{String, some, true, List, [], ◌∷◌, ◌≡◌, refl}
use pico_dome.Daemon.Job.{completed, no_changes}
use pico_dome.Daemon.Persistent
use pico_dome.Daemon.Persistent.{PersistentScanJobStore}
use pico_dome.Daemon.Sample.{JobLine, format, empty_store}
use pico_dome.Tenant.Registry.{
  TextRules, TenantId, TenantContext, TenantRegistry, new_registry, register, map_token, tenant_key,
}
use pico_dome.Tenant.Store.{add, get}
use pico_dome.Tenant.Isolation.{adds, updates, TenantCall, run_as, run_as_isolated}

abbrev rules : TextRules
rules = record { normalize = λ t. t; is_name = λ t. true }

abbrev red : TenantId
red = record { value = "red" }

abbrev blue : TenantId
blue = record { value = "blue" }

abbrev context : TenantId → TenantContext
context t = record { tenant_id = t; display_name = "" }

abbrev registry : TenantRegistry
registry = map_token rules "h" red (register rules (context red) new_registry)

key_run : tenant_key rules red "jobs" ≡ "tenant:red:jobs"
unfolding tenant_key
key_run = refl

abbrev store : PersistentScanJobStore String JobLine
store = (add format rules "0" "a" ("npm" ∷ []) "u" red empty_store).0

abbrev calls : List (TenantCall String)
calls = updates "1" "a" (record no_changes { status = some completed }) ∷ adds "2" "b" [] "v" ∷ []

run_as_isolated_example :
    (get format rules "a" red (run_as format rules blue calls store)).1
    ≡ (get format rules "a" red store).1
unfolding get add Persistent.get Persistent.add Persistent.update
run_as_isolated_example =
    run_as_isolated format rules red blue refl calls store (refl, (refl, tt)) "a"
