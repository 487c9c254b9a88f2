-- ===== src/Scheduler.antt =====
-- src/brunost_judge/scheduler.py: the in-memory scheduler. A set is a list of its members, and a
-- dictionary a list of its entries in insertion order.
pub mod Selection
mod Tests
use brunost_judge.Prelude.{
  ℕ, suc, ◌+◌, String, Bool, true, false, not, ◌&&◌, Option, none, some, List, [], ◌∷◌, ◌++◌,
  contains, ltb, ◌==◌, if◌then◌else◌,
}
use brunost_judge.Prelude.Int.{ℤ, ltb_ℤ}
use brunost_judge.Sql.Order.{text_leb}

pub record WorkerAdvertisement : Type 0 where
  pub worker_id : String
  pub capabilities : List String
  pub queues : List String
  pub resource_classes : List String
  pub region : Option String
  pub active_leases : ℤ
  pub draining : Bool
  pub last_seen : ℕ

pub record SchedulingRequest : Type 0 where
  pub queue : String
  pub resource_class : String
  pub required_capabilities : List String
  pub preferred_region : Option String
  pub tenant : String

pub record CapabilityScheduler : Type 0 where
  pub workers : List WorkerAdvertisement
  pub tenant_assignments : List (String × ℕ)

-- `self._workers[worker.worker_id] = worker`
unfoldable pub set_worker :
    WorkerAdvertisement → List WorkerAdvertisement → List WorkerAdvertisement
set_worker w [] = w ∷ []
set_worker w (v ∷ vs) = if v.worker_id == w.worker_id then w ∷ vs else v ∷ set_worker w vs

-- `register`
unfoldable pub register : WorkerAdvertisement → CapabilityScheduler → CapabilityScheduler
unfolding set_worker
register w s = record s { workers = set_worker w s.workers }

unfoldable pub drop_worker : String → List WorkerAdvertisement → List WorkerAdvertisement
drop_worker i [] = []
drop_worker i (v ∷ vs) = if v.worker_id == i then vs else v ∷ drop_worker i vs

-- `remove`
unfoldable pub remove : String → CapabilityScheduler → CapabilityScheduler
unfolding drop_worker
remove i s = record s { workers = drop_worker i s.workers }

-- `required.issubset(available)`
unfoldable pub is_subset : List String → List String → Bool
unfolding contains
is_subset [] available = true
is_subset (x ∷ xs) available = contains x available && is_subset xs available

-- the filter of `candidates`
unfoldable pub can_run : SchedulingRequest → WorkerAdvertisement → Bool
unfolding contains is_subset
can_run r w =
    not w.draining
    && contains r.queue w.queues
    && contains r.resource_class w.resource_classes
    && is_subset r.required_capabilities w.capabilities

unfoldable pub keep_if :
    (WorkerAdvertisement → Bool) → List WorkerAdvertisement → List WorkerAdvertisement
keep_if p [] = []
keep_if p (w ∷ ws) = let rest = keep_if p ws in if p w then w ∷ rest else rest

-- `candidates`
unfoldable pub candidates : SchedulingRequest → CapabilityScheduler → List WorkerAdvertisement
unfolding keep_if can_run
candidates r s = keep_if (can_run r) s.workers

-- `0 if preferred_region and worker.region == preferred_region else 1`
unfoldable pub region_rank : Option String → Option String → ℕ
region_rank none region = 1
region_rank (some p) none = 1
region_rank (some p) (some region) = if not (p == "") && region == p then 0 else 1

-- `self._tenant_assignments.get(tenant, 0)`
unfoldable pub assignments : String → List (String × ℕ) → ℕ
assignments t [] = 0
assignments t ((u, n) ∷ rest) = if u == t then n else assignments t rest

-- `a <= b` for the tuples that `min` compares; both have the same tenant count
unfoldable pub key_leb : SchedulingRequest → ℕ → WorkerAdvertisement → WorkerAdvertisement → Bool
unfolding text_leb
key_leb r count a b =
    let ra = region_rank r.preferred_region a.region in
    let rb = region_rank r.preferred_region b.region in
    if ltb ra rb
    then true
    else if ltb rb ra
    then false
    else if ltb_ℤ a.active_leases b.active_leases
    then true
    else if ltb_ℤ b.active_leases a.active_leases
    then false
    else if ltb count count
    then true
    else text_leb a.worker_id b.worker_id

-- `min`, with the best so far
unfoldable pub least :
    (WorkerAdvertisement → WorkerAdvertisement → Bool)
    → WorkerAdvertisement
    → List WorkerAdvertisement
    → WorkerAdvertisement
least leq best [] = best
least leq best (w ∷ ws) = least leq (if leq best w then best else w) ws

-- `self._tenant_assignments[tenant] = ... + 1`
unfoldable pub count_up : String → List (String × ℕ) → List (String × ℕ)
count_up t [] = (t, 1) ∷ []
count_up t ((u, n) ∷ rest) = if u == t then (u, n + 1) ∷ rest else (u, n) ∷ count_up t rest

-- the branch of `choose` on what the candidates are
unfoldable pub choose_from :
    SchedulingRequest
    → List WorkerAdvertisement
    → CapabilityScheduler
    → Option WorkerAdvertisement × CapabilityScheduler
unfolding least key_leb assignments count_up
choose_from r [] s = (none, s)
choose_from r (w ∷ ws) s = (
  some (least (key_leb r (assignments r.tenant s.tenant_assignments)) w ws),
  record s { tenant_assignments = count_up r.tenant s.tenant_assignments },
)

-- `choose`
unfoldable pub choose :
    SchedulingRequest → CapabilityScheduler → Option WorkerAdvertisement × CapabilityScheduler
unfolding candidates choose_from
choose r s = choose_from r (candidates r s) s
