-- ===== src/Sentinel/Scheduler/Tests.antt =====
-- A run of the scheduler with one instance, and the theorems on it.
use dbopt.Base.{◌+◌, ◌≡◌, refl, true, false, some, List, [], ◌∷◌, length, map, all, arith}
use dbopt.Base.Bytes.{codes}
use dbopt.Sentinel.Scheduler.{
  default_cadences, RunConfig, spawned, polling, finished, Sched, first_sched, Event, cancel, tick,
  poll_ended, leave, join, happen_all, has_returned,
}
use dbopt.Sentinel.Scheduler.Returned.{is_done, run-returned}
use dbopt.Sentinel.Scheduler.Ends.{closing-ends}
use dbopt.Sentinel.Scheduler.Shutdown.{is_closing, closing, stop-returns}

-- An instance that is not enabled, and the task that prunes.
abbrev disabled : RunConfig
disabled = record {
  instances = record { name = codes "a"; enabled = false; cadences = default_cadences } ∷ [];
  retention_days = 90;
  alert_eval_secs = 0;
}

abbrev monitored : RunConfig
monitored = record disabled {
  instances = record { name = codes "a"; enabled = true; cadences = default_cadences } ∷ [];
}

periods :
    map (λ t. t.period) (spawned monitored)
    ≡ 21600 ∷ 60 ∷ 300 ∷ 300 ∷ 300 ∷ 900 ∷ 86400 ∷ 900 ∷ 60 ∷ 60 ∷ 60 ∷ 60 ∷ 60 ∷ 1 ∷ []
unfolding spawned
periods = refl

-- With no task at all `run` has returned before anything happens.
at_once : has_returned (first_sched (record disabled { retention_days = 0 })) ≡ true
unfolding spawned
at_once = refl

-- A poll that starts behind the cancellation, since the timer was ready too.
abbrev late_poll : List Event
late_poll = tick 0 ∷ poll_ended 0 false ∷ cancel ∷ tick 0 ∷ []

abbrev amid : Sched
amid = record { cancelled = true; phases = polling ∷ []; joined = 0 }

abbrev left : Sched
left = record { cancelled = true; phases = finished ∷ []; joined = 1 }

abbrev to_the_end : List Event
to_the_end = cancel ∷ leave 0 ∷ join ∷ []

run-returned_example : (all is_done left.phases ≡ true) × (left.cancelled ≡ true)
unfolding spawned happen_all
run-returned_example = run-returned disabled to_the_end left refl refl (omega arith)

stop-returns_example :
    (happen_all (closing amid) amid ≡ some left)
    × (all is_closing (closing amid) ≡ true)
    × (length (closing amid) ≡ 3)
unfolding spawned happen_all
stop-returns_example = stop-returns disabled late_poll amid refl refl

-- The poll ends and the task leaves; the handle is left.
closing-ends_example : (2 + 1 ≡ 3) × (has_returned (record left { joined = 0 }) ≡ false)
unfolding spawned happen_all
closing-ends_example =
    closing-ends disabled late_poll (poll_ended 0 true ∷ leave 0 ∷ []) amid
      (record left { joined = 0 }) refl refl refl
