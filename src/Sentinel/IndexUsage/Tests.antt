-- ===== src/Sentinel/IndexUsage/Tests.antt =====
-- Polls of the index usage, and the theorem at one.
use dbopt.Base.{ℕ, ◌≡◌, refl, true, false, none, some, List, [], ◌∷◌, map}
use dbopt.Base.Bytes.{codes}
use dbopt.Sentinel.Keyed.{get_or}
use dbopt.Sentinel.IndexUsage.{
  IndexKey, eq_index, UsageRow, IndexUsageDeltaRow, UsageStore, rows_of, unread,
  poll_index_usage_delta,
}
use dbopt.Sentinel.IndexUsage.Used.{seek, used, poll_index_usage_delta-used}

abbrev key : IndexKey
key = record { db = codes "db"; schema = codes "dbo"; table = codes "t"; index = codes "ix" }

abbrev seeks_at : ℕ → List UsageRow
seeks_at n =
    record {
      database_name = some key.db;
      schema = some key.schema;
      table = some key.table;
      index = some key.index;
      user_seeks = some n;
      user_scans = some 4;
      user_lookups = none;
      user_updates = none;
    }
    ∷ []

abbrev stored_at : ℕ → UsageStore
stored_at written = record {
  rows = [];
  snapshot = some ((key, record { seeks = 10; scans = 4; lookups = 0; updates = 0 }) ∷ [], written);
}

abbrev polled : ℕ → ℕ → List IndexUsageDeltaRow
polled now n =
    (poll_index_usage_delta true (rows_of (seeks_at n)) (λ row. false) false now
      (stored_at 1000)).1.rows

-- A poll in time, one behind too long a gap, and one behind a restart of the server.
three_polls :
    (map (λ r. r.seeks_delta) (polled 60000 25) ≡ 15 ∷ [])
    × (polled 3601001 25 ≡ [])
    × (polled 60000 9 ≡ [])
unfolding poll_index_usage_delta
three_polls = (refl, refl, refl)

-- Where the server gives no rows nothing changes.
no_rows :
    poll_index_usage_delta true unread (λ row. false) false 5 (stored_at 0) ≡ (false, stored_at 0)
unfolding poll_index_usage_delta
no_rows = refl

poll_index_usage_delta-used_example : used seek key (polled 60000 25) ≡ 15
unfolding eq_index get_or
poll_index_usage_delta-used_example =
    poll_index_usage_delta-used seek key (seeks_at 25) false 60000
      ((key, record { seeks = 10; scans = 4; lookups = 0; updates = 0 }) ∷ []) 1000 []
