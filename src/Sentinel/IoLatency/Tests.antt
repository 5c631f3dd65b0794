-- ===== src/Sentinel/IoLatency/Tests.antt =====
-- A poll of the file latencies, and the theorem at it. The numbers are whole.
use dbopt.Base.{ℕ, ◌≡◌, refl, true, false, none, some, List, [], ◌∷◌}
use dbopt.Base.Bytes.{codes}
use dbopt.Sentinel.Keyed.{get_or, insert}
use dbopt.Sentinel.Tests.{whole}
use dbopt.Sentinel.IoLatency.{
  FileKey, eq_file, IoRow, IoLatencyRow, Snapshot, is_unavailable, rows_of, poll_io_latency,
}
use dbopt.Sentinel.IoLatency.Busy.{reading, counted, poll_io_latency-counted}

abbrev data_file : FileKey
data_file = record { db = codes "db"; file = codes "f1" }

abbrev read_at : ℕ → ℕ → IoRow
read_at n stall = record {
  database = some (codes "db");
  logical_name = some (codes "f1");
  type_desc = some (codes "ROWS");
  num_of_reads = some n;
  num_of_writes = none;
  io_stall_read = some stall;
  io_stall_write = none;
}

-- A row without names, and two readings of a file.
abbrev reply : List IoRow
reply =
    record (read_at 7 0) { database = none; logical_name = some [] }
    ∷ read_at 1 1
    ∷ read_at 30 500
    ∷ []

abbrev before : Snapshot
before = (data_file, record { reads = 10; writes = 5; read_stall = 100; write_stall = 3 }) ∷ []

abbrev stored : List (IoLatencyRow whole)
stored =
    (poll_io_latency whole true (rows_of reply) (λ row. false) false 1000
      (record { rows = []; snapshot = some before })).1.rows

-- 400 ms for 20 reads.
one_row :
    stored
    ≡ record {
      captured_at = 1000;
      database_name = codes "db";
      file_logical_name = codes "f1";
      file_type = codes "ROWS";
      reads_delta = 20;
      writes_delta = 0;
      read_stall_ms_delta = 400;
      write_stall_ms_delta = 0;
      avg_read_latency_ms = 20;
      avg_write_latency_ms = 0;
    }
      ∷ []
unfolding poll_io_latency
one_row = refl

-- Without the permission the poll does nothing; it fails on other messages.
unavailable :
    (is_unavailable (codes "no permission") ≡ true) × (is_unavailable (codes "timeout") ≡ false)
unfolding is_unavailable
unavailable = (refl, refl)

poll_io_latency-counted_example : counted whole reading data_file stored ≡ 20
unfolding eq_file insert get_or
poll_io_latency-counted_example =
    poll_io_latency-counted whole reading data_file reply false 1000 before []
