-- ===== src/Sentinel/Scheduler.antt =====
-- crates/sentinel/src/scheduler.rs: the tasks that `run` spawns, and how they run side by side. A
-- task is one loop over `select!`, which takes any of its branches that is ready; the timers, which
-- decide when `tick` is ready, are the environment, and so are the polls, of which only how they end
-- is seen. A task that panics is left out.
pub mod Returned
pub mod Shutdown
pub mod Ends
mod Tests
use Prim.Native.String.{String}
use dbopt.Base.{
  ℕ, zero, suc, ◌+◌, ◌*◌, ◌%◌, ◌^◌, Bool, true, false, ◌&&◌, Option, none, some, List, [], ◌∷◌,
  ◌++◌, ltb, ◌==◌, if◌then◌else◌, length, get_elem?,
}
use dbopt.Base.Bytes.{Bytes, codes}

pub data Surface : Type 0 where
  prune live query_store waits deadlocks index_usage missing_index sizes cpu_pressure
        memory_headroom io_latency tempdb_contention plan_cache alerts :
      Surface

pub record Cadences : Type 0 where
  pub live_secs : ℕ
  pub query_store_mins : ℕ
  pub waits_mins : ℕ
  pub index_usage_mins : ℕ
  pub vitals_secs : ℕ

-- Cadences::default
abbrev pub default_cadences : Cadences
default_cadences = record {
  live_secs = 60;
  query_store_mins = 5;
  waits_mins = 5;
  index_usage_mins = 15;
  vitals_secs = 60;
}

-- The connection is passed on to the polls.
pub record InstanceConfig : Type 0 where
  pub name : Bytes
  pub enabled : Bool
  pub cadences : Cadences

pub record RunConfig : Type 0 where
  pub instances : List InstanceConfig
  pub retention_days : ℕ
  pub alert_eval_secs : ℕ

-- A spawned task, with the seconds of its interval; that which prunes has no label.
pub record Task : Type 0 where
  pub label : Option Bytes
  pub surface : Surface
  pub period : ℕ

-- `n.max(1)`
abbrev pub secs : ℕ → ℕ
secs n = if n == 0 then 1 else n

-- `n.max(1) * 60` of a `u64`
abbrev pub mins : ℕ → ℕ
mins n = (secs n * 60) % 18446744073709551616

abbrev labelled : Bytes → String → Option Bytes
labelled name surface = some (name ++ codes "/" ++ codes surface)

-- The body of the loop over the instances.
unfoldable pub instance_tasks : ℕ → InstanceConfig → List Task
instance_tasks alert_period inst =
    let c = inst.cadences in
    let n = inst.name in
    record { label = labelled n "live"; surface = live; period = secs c.live_secs }
    ∷ record {
      label = labelled n "query_store";
      surface = query_store;
      period = mins c.query_store_mins;
    }
    ∷ record { label = labelled n "waits"; surface = waits; period = mins c.waits_mins }
    ∷ record { label = labelled n "deadlocks"; surface = deadlocks; period = mins c.waits_mins }
    ∷ record {
      label = labelled n "index_usage";
      surface = index_usage;
      period = mins c.index_usage_mins;
    }
    ∷ record { label = labelled n "missing_index"; surface = missing_index; period = 24 * 60 * 60 }
    ∷ record { label = labelled n "sizes"; surface = sizes; period = mins c.index_usage_mins }
    ∷ record {
      label = labelled n "cpu_pressure";
      surface = cpu_pressure;
      period = secs c.vitals_secs;
    }
    ∷ record {
      label = labelled n "memory_headroom";
      surface = memory_headroom;
      period = secs c.vitals_secs;
    }
    ∷ record { label = labelled n "io_latency"; surface = io_latency; period = secs c.vitals_secs }
    ∷ record {
      label = labelled n "tempdb_contention";
      surface = tempdb_contention;
      period = secs c.vitals_secs;
    }
    ∷ record { label = labelled n "plan_cache"; surface = plan_cache; period = secs c.vitals_secs }
    ∷ record { label = labelled n "alerts"; surface = alerts; period = alert_period }
    ∷ []

unfoldable pub tasks_of_all : ℕ → List InstanceConfig → List Task
unfolding instance_tasks
tasks_of_all alert_period [] = []
tasks_of_all alert_period (inst ∷ instances) =
    let rest = tasks_of_all alert_period instances in
    if inst.enabled then instance_tasks alert_period inst ++ rest else rest

-- The task that prunes, first, if it is wanted.
abbrev pub prune_task : Task
prune_task = record { label = none; surface = prune; period = 6 * 60 * 60 }

-- The handles of `run`, in their order.
unfoldable pub spawned : RunConfig → List Task
unfolding tasks_of_all
spawned cfg =
    (if ltb 0 cfg.retention_days then prune_task ∷ [] else [])
    ++ tasks_of_all (secs cfg.alert_eval_secs) cfg.instances

-- A task waits in its `select!`, or awaits a poll, or has left its loop.
pub data Phase : Type 0 where
  waiting polling finished : Phase

-- The token, the tasks, and how many of the handles `run` has awaited.
pub record Sched : Type 0 where
  pub cancelled : Bool
  pub phases : List Phase
  pub joined : ℕ

abbrev pub all_waiting : List Task → List Phase
all_waiting [] = []
all_waiting (t ∷ ts) = waiting ∷ all_waiting ts

abbrev pub first_sched : RunConfig → Sched
first_sched cfg = record { cancelled = false; phases = all_waiting (spawned cfg); joined = 0 }

-- What happens: `Sentinel::stop` cancels; the timer of a task is taken; its poll ends, well or not; the
-- branch of the token is taken; and `run` gets past the handle that it awaits.
pub data Event : Type 0 where
  cancel : Event
  tick : ℕ → Event
  poll_ended : ℕ → Bool → Event
  leave : ℕ → Event
  join : Event

abbrev pub is_waiting : Option Phase → Bool
is_waiting (some waiting) = true
is_waiting _ = false

abbrev pub is_polling : Option Phase → Bool
is_polling (some polling) = true
is_polling _ = false

abbrev pub is_finished : Option Phase → Bool
is_finished (some finished) = true
is_finished _ = false

unfoldable pub set_phase : ℕ → Phase → List Phase → List Phase
set_phase k p [] = []
set_phase zero p (q ∷ ps) = p ∷ ps
set_phase (suc k) p (q ∷ ps) = q ∷ set_phase k p ps

-- Nothing if the event cannot happen now. A poll that failed is logged, and the loop goes on.
unfoldable pub happen : Event → Sched → Option Sched
unfolding set_phase
happen cancel s = some (record s { cancelled = true })
happen (tick k) s =
    if is_waiting (get_elem? s.phases k)
    then some (record s { phases = set_phase k polling s.phases })
    else none
happen (poll_ended k ok) s =
    if is_polling (get_elem? s.phases k)
    then some (record s { phases = set_phase k waiting s.phases })
    else none
happen (leave k) s =
    if s.cancelled && is_waiting (get_elem? s.phases k)
    then some (record s { phases = set_phase k finished s.phases })
    else none
happen join s =
    if is_finished (get_elem? s.phases s.joined)
    then some (record s { joined = s.joined + 1 })
    else none

unfoldable pub happen_all : List Event → Sched → Option Sched
unfolding happen
happen_all [] s = some s
happen_all (e ∷ es) s = elim (happen e s) [ none ↦ none | some t ↦ happen_all es t ]

-- Has `run` returned?
abbrev pub has_returned : Sched → Bool
has_returned s = s.joined == length s.phases
