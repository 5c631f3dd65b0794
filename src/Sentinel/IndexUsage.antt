-- ===== src/Sentinel/IndexUsage.antt =====
-- crates/sentinel/src/poll/index_usage.rs: how often each index was used between two polls. The
-- connection, the reply of the server and the statements of the storage are parameters. Counters are
-- not negative, as SQL Server's are; the maps are association lists with each index once.
pub mod Used
mod Tests
use dbopt.Base.{
  ℕ, ◌-◌, Bool, true, false, ◌&&◌, ◌||◌, Option, none, some, List, [], ◌∷◌, ◌++◌, ltb, ◌==◌, any,
  if◌then◌else◌,
}
use dbopt.Base.Bytes.{Bytes, eq_bytes}
use dbopt.Sentinel.Differences.{difference_rows}
use dbopt.Sentinel.Keyed.{or_empty, or_zero, get, insert}
use dbopt.Sentinel.Waits.{age, delta_is_trustworthy}

-- (db, schema, table, index)
pub record IndexKey : Type 0 where
  pub db : Bytes
  pub schema : Bytes
  pub table : Bytes
  pub index : Bytes

unfoldable pub eq_index : IndexKey → IndexKey → Bool
unfolding eq_bytes
eq_index j k =
    (eq_bytes j.db k.db && eq_bytes j.schema k.schema)
    && (eq_bytes j.table k.table && eq_bytes j.index k.index)

-- (seeks, scans, lookups, updates)
pub record UsageCounters : Type 0 where
  pub seeks : ℕ
  pub scans : ℕ
  pub lookups : ℕ
  pub updates : ℕ

abbrev pub no_usage : UsageCounters
no_usage = record { seeks = 0; scans = 0; lookups = 0; updates = 0 }

-- A row of the reply; a column may hold no value.
pub record UsageRow : Type 0 where
  pub database_name : Option Bytes
  pub schema : Option Bytes
  pub table : Option Bytes
  pub index : Option Bytes
  pub user_seeks : Option ℕ
  pub user_scans : Option ℕ
  pub user_lookups : Option ℕ
  pub user_updates : Option ℕ

abbrev pub usage_key : UsageRow → IndexKey
usage_key r = record {
  db = or_empty r.database_name;
  schema = or_empty r.schema;
  table = or_empty r.table;
  index = or_empty r.index;
}

abbrev pub usage_counters : UsageRow → UsageCounters
usage_counters r = record {
  seeks = or_zero r.user_seeks;
  scans = or_zero r.user_scans;
  lookups = or_zero r.user_lookups;
  updates = or_zero r.user_updates;
}

abbrev pub UsageSnapshot : Type 0
UsageSnapshot = List (IndexKey × UsageCounters)

-- The loop over the rows of the reply.
unfoldable pub gather_usage : List UsageRow → UsageSnapshot → UsageSnapshot
unfolding insert eq_index
gather_usage [] m = m
gather_usage (r ∷ reply) m = gather_usage reply (insert eq_index (usage_key r) (usage_counters r) m)

-- Did one of the counters of an index go down?
abbrev pub went_back : Option UsageCounters → UsageCounters → Bool
went_back none p = false
went_back (some c) p =
    (ltb c.seeks p.seeks || ltb c.scans p.scans)
    || (ltb c.lookups p.lookups || ltb c.updates p.updates)

unfoldable pub has_gone_back : UsageSnapshot → UsageSnapshot → Bool
unfolding get eq_index
has_gone_back prev current = any (λ e. went_back (get eq_index e.0 current) e.1) prev

-- The prior counters, where they are a baseline for the current ones.
unfoldable pub usage_baseline :
    ℕ → Option (UsageSnapshot × ℕ) → UsageSnapshot → Option UsageSnapshot
unfolding has_gone_back delta_is_trustworthy
usage_baseline now none current = none
usage_baseline now (some (prev, written)) current =
    if delta_is_trustworthy (age now written) (has_gone_back prev current) then some prev else none

pub record IndexUsageDeltaRow : Type 0 where
  pub captured_at : ℕ
  pub db_name : Bytes
  pub schema_name : Bytes
  pub table_name : Bytes
  pub index_name : Bytes
  pub seeks_delta : ℕ
  pub scans_delta : ℕ
  pub lookups_delta : ℕ
  pub updates_delta : ℕ

-- The row of an index; `a - b` on `ℕ` is the difference that `.max(0)` cuts off.
unfoldable pub usage_row : ℕ → IndexKey → UsageCounters → UsageCounters → Option IndexUsageDeltaRow
usage_row captured_at k cur prior =
    if (cur.seeks - prior.seeks == 0 && cur.scans - prior.scans == 0)
      && (cur.lookups - prior.lookups == 0 && cur.updates - prior.updates == 0)
    then none
    else some (record {
      captured_at = captured_at;
      db_name = k.db;
      schema_name = k.schema;
      table_name = k.table;
      index_name = k.index;
      seeks_delta = cur.seeks - prior.seeks;
      scans_delta = cur.scans - prior.scans;
      lookups_delta = cur.lookups - prior.lookups;
      updates_delta = cur.updates - prior.updates;
    })

-- The rows that the loop inserts, if there is a baseline.
unfoldable pub usage_rows :
    (IndexUsageDeltaRow → Bool) → ℕ → Option UsageSnapshot → UsageSnapshot → List IndexUsageDeltaRow
unfolding usage_row difference_rows eq_index
usage_rows insert_fails captured_at none current = []
usage_rows insert_fails captured_at (some prior) current =
    difference_rows eq_index no_usage (usage_row captured_at) insert_fails prior current

-- What is stored of an instance: the last counters, with the time at which they were written.
pub record UsageStore : Type 0 where
  pub rows : List IndexUsageDeltaRow
  pub snapshot : Option (UsageSnapshot × ℕ)

-- The reply of the server: the query fails or its rows cannot be collected, or the rows.
pub data UsageReply : Type 0 where
  unread : UsageReply
  rows_of : List UsageRow → UsageReply

-- The flag of the result says that the poll fails. The first argument says that the connection and
-- the look-up of the instance succeed, the fourth one that the update of the snapshot fails.
unfoldable pub poll_index_usage_delta :
    Bool → UsageReply → (IndexUsageDeltaRow → Bool) → Bool → ℕ → UsageStore → Bool × UsageStore
unfolding gather_usage usage_baseline usage_rows
poll_index_usage_delta false reply insert_fails update_fails now st = (true, st)
poll_index_usage_delta true unread insert_fails update_fails now st = (false, st)
poll_index_usage_delta true (rows_of reply) insert_fails update_fails now st =
    let current = gather_usage reply [] in
    (
      false,
      record {
        rows =
            usage_rows insert_fails now (usage_baseline now st.snapshot current) current ++ st.rows;
        snapshot = if update_fails then st.snapshot else some (current, now);
      },
    )
