-- ===== src/Sentinel/IoLatency.antt =====
-- crates/sentinel/src/poll/io_latency.rs: how much each file was read and written between two polls,
-- and how long that took on average. The connection, the reply of the server and the statements of
-- the storage are parameters. Counters are not negative, as SQL Server's are; the maps are
-- association lists with each file once.
pub mod Busy
mod Tests
use dbopt.Base.{
  ℕ, ◌-◌, Bool, true, false, not, ◌&&◌, ◌||◌, Option, none, some, List, [], ◌∷◌, ◌++◌, ltb, ◌==◌,
  if◌then◌else◌,
}
use dbopt.Base.Bytes.{Bytes, codes, eq_bytes}
use dbopt.Base.Text.{is_empty, find, contains}
use dbopt.Sentinel.Differences.{difference_rows}
use dbopt.Sentinel.Keyed.{or_empty, or_zero, get_or, insert}
use dbopt.Sentinel.Floats.{Floats, pos}

-- (database, logical file name)
pub record FileKey : Type 0 where
  pub db : Bytes
  pub file : Bytes

unfoldable pub eq_file : FileKey → FileKey → Bool
unfolding eq_bytes
eq_file j k = eq_bytes j.db k.db && eq_bytes j.file k.file

-- (reads, writes, read_stall_ms, write_stall_ms)
pub record IoCounters : Type 0 where
  pub reads : ℕ
  pub writes : ℕ
  pub read_stall : ℕ
  pub write_stall : ℕ

-- A row of the reply; a column may hold no value.
pub record IoRow : Type 0 where
  pub database : Option Bytes
  pub logical_name : Option Bytes
  pub type_desc : Option Bytes
  pub num_of_reads : Option ℕ
  pub num_of_writes : Option ℕ
  pub io_stall_read : Option ℕ
  pub io_stall_write : Option ℕ

abbrev pub row_key : IoRow → FileKey
row_key r = record { db = or_empty r.database; file = or_empty r.logical_name }

abbrev pub row_counters : IoRow → IoCounters
row_counters r = record {
  reads = or_zero r.num_of_reads;
  writes = or_zero r.num_of_writes;
  read_stall = or_zero r.io_stall_read;
  write_stall = or_zero r.io_stall_write;
}

-- A row without either name is skipped.
abbrev pub is_nameless : IoRow → Bool
is_nameless r = is_empty (row_key r).db && is_empty (row_key r).file

abbrev pub Snapshot : Type 0
Snapshot = List (FileKey × IoCounters)

pub record Readings : Type 0 where
  pub current : Snapshot
  pub file_types : List (FileKey × Bytes)

abbrev pub no_readings : Readings
no_readings = record { current = []; file_types = [] }

-- The loop over the rows of the reply.
unfoldable pub gather : List IoRow → Readings → Readings
unfolding insert eq_file
gather [] g = g
gather (r ∷ rows) g = gather rows (
    if is_nameless r then g else record {
      current = insert eq_file (row_key r) (row_counters r) g.current;
      file_types = insert eq_file (row_key r) (or_empty r.type_desc) g.file_types;
    })

-- The reply of the server: the query fails with a message, or its rows cannot be collected.
pub data Reply : Type 0 where
  refused : Bytes → Reply
  broken : Reply
  rows_of : List IoRow → Reply

unfoldable pub is_unavailable : Bytes → Bool
unfolding find
is_unavailable msg =
    contains (codes "VIEW SERVER STATE") msg
    || contains (codes "permission") msg
    || contains (codes "Invalid object name") msg
    || contains (codes "dm_io_virtual_file_stats") msg

abbrev pub no_counters : IoCounters
no_counters = record { reads = 0; writes = 0; read_stall = 0; write_stall = 0 }

abbrev pub prior_counters : FileKey → Snapshot → IoCounters
prior_counters k prior = get_or eq_file no_counters k prior

module _ {F : Type 0} (fl : Floats F) where
  pub record IoLatencyRow : Type 0 where
    pub captured_at : ℕ
    pub database_name : Bytes
    pub file_logical_name : Bytes
    pub file_type : Bytes
    pub reads_delta : ℕ
    pub writes_delta : ℕ
    pub read_stall_ms_delta : ℕ
    pub write_stall_ms_delta : ℕ
    pub avg_read_latency_ms : F
    pub avg_write_latency_ms : F

  -- The average, or 0.0 if nothing is counted.
  unfoldable pub average : ℕ → ℕ → F
  average stall count =
      if ltb 0 count
      then fl.divided (fl.of_int (pos stall)) (fl.of_int (pos count))
      else fl.literal 0 1

  -- The row of a file; `a - b` on `ℕ` is the difference that `.max(0)` cuts off.
  unfoldable pub latency_row :
      ℕ → List (FileKey × Bytes) → FileKey → IoCounters → IoCounters → Option IoLatencyRow
  unfolding average get_or eq_file
  latency_row captured_at file_types k cur prior =
      if cur.reads - prior.reads == 0 && cur.writes - prior.writes == 0
      then none
      else some (record {
        captured_at = captured_at;
        database_name = k.db;
        file_logical_name = k.file;
        file_type = get_or eq_file [] k file_types;
        reads_delta = cur.reads - prior.reads;
        writes_delta = cur.writes - prior.writes;
        read_stall_ms_delta = cur.read_stall - prior.read_stall;
        write_stall_ms_delta = cur.write_stall - prior.write_stall;
        avg_read_latency_ms = average (cur.read_stall - prior.read_stall) (cur.reads - prior.reads);
        avg_write_latency_ms =
            average (cur.write_stall - prior.write_stall) (cur.writes - prior.writes);
      })

  -- The rows that the loop inserts.
  unfoldable pub latency_rows :
      (IoLatencyRow → Bool) → ℕ → List (FileKey × Bytes) → Snapshot → Snapshot → List IoLatencyRow
  unfolding latency_row difference_rows eq_file
  latency_rows insert_fails captured_at file_types prior current =
      difference_rows eq_file no_counters (latency_row captured_at file_types) insert_fails prior
        current

  -- What is stored of an instance.
  pub record IoStore : Type 0 where
    pub rows : List IoLatencyRow
    pub snapshot : Option Snapshot

  -- Behind the collection of the rows; the flag says that the update of the snapshot failed.
  unfoldable pub record_readings : (IoLatencyRow → Bool) → Bool → ℕ → Readings → IoStore → IoStore
  unfolding latency_rows
  record_readings insert_fails update_fails now g st = record {
    rows =
        elim st.snapshot as (λ o. List IoLatencyRow) [
          | none ↦ []
          | some prior ↦ latency_rows insert_fails now g.file_types prior g.current
        ]
        ++ st.rows;
    snapshot = if update_fails then st.snapshot else some g.current;
  }

  -- The flag of the result says that the poll fails. The first argument says that the connection and
  -- the look-up of the instance succeed.
  unfoldable pub poll_io_latency :
      Bool → Reply → (IoLatencyRow → Bool) → Bool → ℕ → IoStore → Bool × IoStore
  unfolding is_unavailable gather record_readings
  poll_io_latency false reply insert_fails update_fails now st = (true, st)
  poll_io_latency true (refused msg) insert_fails update_fails now st =
      (not (is_unavailable msg), st)
  poll_io_latency true broken insert_fails update_fails now st = (false, st)
  poll_io_latency true (rows_of rows) insert_fails update_fails now st =
      (false, record_readings insert_fails update_fails now (gather rows no_readings) st)
