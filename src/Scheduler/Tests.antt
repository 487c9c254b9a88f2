-- ===== src/Scheduler/Tests.antt =====
-- A concrete scheduler, and the theorem on `choose` applied to it.
use brunost_judge.Prelude.{◌≡◌, refl, false, none, some, [], ◌∷◌}
use brunost_judge.Prelude.Int.{pos}
use brunost_judge.Scheduler.{
  WorkerAdvertisement, SchedulingRequest, CapabilityScheduler, choose, region_rank,
}
use brunost_judge.Scheduler.Selection.{Selection, choose-Selection}

abbrev near : WorkerAdvertisement
near = record {
  worker_id = "b";
  capabilities = "gpu" ∷ [];
  queues = "default" ∷ [];
  resource_classes = "cpu" ∷ [];
  region = some "north";
  active_leases = pos 3;
  draining = false;
  last_seen = 0;
}

abbrev far : WorkerAdvertisement
far = record near { worker_id = "a"; region = none; active_leases = pos 0 }

abbrev scheduler : CapabilityScheduler
scheduler = record { workers = far ∷ near ∷ []; tenant_assignments = [] }

abbrev request : SchedulingRequest
request = record {
  queue = "default";
  resource_class = "cpu";
  required_capabilities = "gpu" ∷ [];
  preferred_region = some "north";
  tenant = "default";
}

-- the preferred region goes before the load
prefers_region : (choose request scheduler).0 ≡ some near
unfolding choose region_rank
prefers_region = refl

choose-Selection_example : Selection request scheduler (choose request scheduler).0
choose-Selection_example = choose-Selection request scheduler
