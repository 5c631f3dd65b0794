-- ===== src/Sentinel/Waits.antt =====
-- crates/sentinel/src/poll/waits.rs: the deltas of the wait statistics between two polls. The
-- connection, the reply of the server and the statements of the storage are parameters. Counters are
-- not negative, as SQL Server's are; the maps are association lists with each wait type once.
pub mod Deltas
use dbopt.Base.{
  ℕ, ◌+◌, ◌-◌, Bool, true, false, not, ◌&&◌, ◌||◌, Option, none, some, List, [], ◌∷◌, ◌++◌, ltb,
  leb, if◌then◌else◌, any,
}
use dbopt.Base.Bytes.{Bytes, codes, eq_bytes}
use dbopt.Base.Text.{is_empty, find, contains}
use dbopt.Sentinel.Differences.{difference_rows}
use dbopt.Sentinel.Keyed.{or_zero, get, get_or, insert}
use dbopt.Sentinel.Floats.{ℤ, pos, negsuc}

-- (waiting_tasks_count, wait_time_ms, signal_wait_ms)
pub record Totals : Type 0 where
  pub tasks : ℕ
  pub total : ℕ
  pub signal : ℕ

abbrev pub Snapshot : Type 0
Snapshot = List (Bytes × Totals)

pub record WaitDeltaRow : Type 0 where
  pub captured_at : ℕ
  pub wait_type : Bytes
  pub waiting_tasks_count_delta : ℕ
  pub wait_time_ms_delta : ℕ
  pub signal_wait_ms_delta : ℕ

-- BASELINE_MAX_GAP_MS
abbrev pub baseline_max_gap_ms : ℕ
baseline_max_gap_ms = 3600000

abbrev within_gap : ℤ → Bool
within_gap (pos n) = leb n baseline_max_gap_ms
within_gap (negsuc n) = false

unfoldable pub delta_is_trustworthy : ℤ → Bool → Bool
delta_is_trustworthy prior_age_ms decreased = not decreased && within_gap prior_age_ms

abbrev went_down : Option Totals → Totals → Bool
went_down none p = false
went_down (some c) p = ltb c.total p.total

-- Did a wait time go down?
unfoldable pub has_decreased : Snapshot → Snapshot → Bool
unfolding get eq_bytes
has_decreased prev current = any (λ e. went_down (get eq_bytes e.0 current) e.1) prev

-- The prior totals, where they are a baseline for the current ones.
unfoldable pub baseline : Option (Snapshot × ℤ) → Snapshot → Option Snapshot
unfolding has_decreased delta_is_trustworthy
baseline none current = none
baseline (some (prev, age_ms)) current =
    if delta_is_trustworthy age_ms (has_decreased prev current) then some prev else none

abbrev pub no_totals : Totals
no_totals = record { tasks = 0; total = 0; signal = 0 }

abbrev pub prior_totals : Bytes → Snapshot → Totals
prior_totals k prev = get_or eq_bytes no_totals k prev

-- The row of a wait type; `a - b` on `ℕ` is the difference that `.max(0)` cuts off, and it is not
-- positive exactly if it is 0.
unfoldable pub delta_row : ℕ → Bytes → Totals → Totals → Option WaitDeltaRow
delta_row captured_at wait_type cur prev =
    if leb cur.tasks prev.tasks && leb cur.total prev.total && leb cur.signal prev.signal
    then none
    else some (record {
      captured_at = captured_at;
      wait_type = wait_type;
      waiting_tasks_count_delta = cur.tasks - prev.tasks;
      wait_time_ms_delta = cur.total - prev.total;
      signal_wait_ms_delta = cur.signal - prev.signal;
    })

-- The rows that the loop inserts.
unfoldable pub delta_rows : (WaitDeltaRow → Bool) → ℕ → Snapshot → Snapshot → List WaitDeltaRow
unfolding delta_row difference_rows eq_bytes
delta_rows insert_fails captured_at prev current =
    difference_rows eq_bytes no_totals (delta_row captured_at) insert_fails prev current

-- What is stored of an instance: the last totals, with the time at which they were written.
pub record WaitStore : Type 0 where
  pub rows : List WaitDeltaRow
  pub snapshot : Option (Snapshot × ℕ)

-- `now - written_at`
abbrev pub age : ℕ → ℕ → ℤ
age now written = if leb written now then pos (now - written) else negsuc (written - now - 1)

abbrev aged : ℕ → Option (Snapshot × ℕ) → Option (Snapshot × ℤ)
aged now none = none
aged now (some (prev, written)) = some (prev, age now written)

-- The rows that a poll inserts.
unfoldable pub polled_rows :
    (WaitDeltaRow → Bool) → ℕ → Option (Snapshot × ℕ) → Snapshot → List WaitDeltaRow
unfolding baseline delta_rows
polled_rows insert_fails now stored current = elim (baseline (aged now stored) current) [
  | none ↦ []
  | some prev ↦ delta_rows insert_fails now prev current
]

-- The part of `poll_wait_stats` behind the query; the flag says that the update of the snapshot
-- failed.
unfoldable pub record_totals : (WaitDeltaRow → Bool) → Bool → ℕ → Snapshot → WaitStore → WaitStore
unfolding polled_rows
record_totals insert_fails update_fails now current st = record {
  rows = polled_rows insert_fails now st.snapshot current ++ st.rows;
  snapshot = if update_fails then st.snapshot else some (current, now);
}

-- A row of the reply; a column may hold no value.
pub record WaitRow : Type 0 where
  pub wait_type : Option Bytes
  pub waiting_tasks_count : Option ℕ
  pub wait_time_ms : Option ℕ
  pub signal_wait_time_ms : Option ℕ

abbrev pub row_totals : WaitRow → Totals
row_totals r = record {
  tasks = or_zero r.waiting_tasks_count;
  total = or_zero r.wait_time_ms;
  signal = or_zero r.signal_wait_time_ms;
}

-- The wait type of a row, if it has one that is not empty.
abbrev pub named : WaitRow → Option Bytes
named r = elim r.wait_type [ none ↦ none | some t ↦ if is_empty t then none else some t ]

abbrev pub add_totals : Option Bytes → Totals → Snapshot → Snapshot
add_totals none t m = m
add_totals (some k) t m = insert eq_bytes k t m

-- The loop over the rows of the reply.
unfoldable pub gather_totals : List WaitRow → Snapshot → Snapshot
unfolding insert eq_bytes
gather_totals [] m = m
gather_totals (r ∷ reply) m = gather_totals reply (add_totals (named r) (row_totals r) m)

-- The reply of the server: the query fails with a message, or its rows cannot be collected.
pub data WaitReply : Type 0 where
  refused : Bytes → WaitReply
  broken : WaitReply
  rows_of : List WaitRow → WaitReply

unfoldable pub waits_unavailable : Bytes → Bool
unfolding find
waits_unavailable msg =
    contains (codes "dm_os_wait_stats") msg
    || contains (codes "Invalid object name") msg
    || contains (codes "VIEW SERVER STATE") msg
    || contains (codes "permission") msg

-- The flag of the result says that the poll fails. The first argument says that the connection and
-- the look-up of the instance succeed, the fourth one that the update of the snapshot fails.
unfoldable pub poll_wait_stats :
    Bool → WaitReply → (WaitDeltaRow → Bool) → Bool → ℕ → WaitStore → Bool × WaitStore
unfolding waits_unavailable gather_totals record_totals
poll_wait_stats false reply insert_fails update_fails now st = (true, st)
poll_wait_stats true (refused msg) insert_fails update_fails now st =
    (not (waits_unavailable msg), st)
poll_wait_stats true broken insert_fails update_fails now st = (false, st)
poll_wait_stats true (rows_of reply) insert_fails update_fails now st =
    (false, record_totals insert_fails update_fails now (gather_totals reply []) st)
