-- ===== src/Sentinel/IoLatency/Busy.antt =====
-- The rows of the file latencies against the replies of the server.
use dbopt.Base.{
  ℕ, ◌+◌, ◌-◌, ◌≡◌, refl, ap, ◌∙◌, Bool, true, false, not, ◌&&◌, Bool-cases, some, List, [], ◌∷◌,
  if◌then◌else◌, inl, inr, arith,
}
use dbopt.Base.Bytes.{Bytes, eq_bytes}
use dbopt.Base.Bytes.Laws.{eq_bytes_iff, eq_bytes_refl}
use dbopt.Sentinel.Differences.{amount_of, amounts, amounts-append, difference_rows-amounts}
use dbopt.Sentinel.Keyed.{distinct, get_or-nil, get_or-insert, distinct-insert}
use dbopt.Sentinel.Floats.{Floats}
use dbopt.Sentinel.IoLatency.{
  FileKey, eq_file, IoCounters, IoRow, row_key, row_counters, is_nameless, Snapshot, Readings,
  gather, no_readings, rows_of, no_counters, prior_counters, IoLatencyRow, latency_row,
  latency_rows, record_readings, poll_io_latency,
}

eq_file-same : (j k : FileKey) → eq_file j k ≡ true → j ≡ k
unfolding eq_file
eq_file-same j k h =
    let d : j.db ≡ k.db = (eq_bytes_iff j.db k.db).0 (ground (arith, h)) in
    let f : j.file ≡ k.file = (eq_bytes_iff j.file k.file).0 (ground (arith, h)) in
    λ i. record { db = d i; file = f i }

eq_file_refl : (k : FileKey) → eq_file k k ≡ true
unfolding eq_file
eq_file_refl k = rw (eq_bytes_refl k.db, eq_bytes_refl k.file)

abbrev distinct_files : Snapshot → Bool
distinct_files m = distinct eq_file m

-- The last reading of a file in a reply, or else the one given.
abbrev pub last_reading : FileKey → IoCounters → List IoRow → IoCounters
last_reading k c [] = c
last_reading k c (r ∷ reply) =
    last_reading k (if not (is_nameless r) && eq_file (row_key r) k then row_counters r else c)
      reply

gather-last_reading :
    (k : FileKey) (reply : List IoRow) (g : Readings)
    → prior_counters k (gather reply g).current ≡ last_reading k (prior_counters k g.current) reply
unfolding gather
gather-last_reading k [] g = refl
gather-last_reading k (r ∷ reply) g = elim (Bool-cases (is_nameless r)) [
  | inl n ↦ rw (gather, n) (gather-last_reading k reply g)
  | inr n ↦
      rw (gather, n)
        (gather-last_reading k reply _
          ∙ ap (λ c. last_reading k c reply)
              (get_or-insert eq_file eq_file-same eq_file_refl no_counters k (row_key r)
                (row_counters r) g.current))
]

gather-distinct :
    (reply : List IoRow) (g : Readings)
    → distinct_files g.current ≡ true
    → distinct_files (gather reply g).current ≡ true
unfolding gather
gather-distinct [] g h = h
gather-distinct (r ∷ reply) g h = elim (Bool-cases (is_nameless r)) [
  | inl n ↦ rw (gather, n) (gather-distinct reply g h)
  | inr n ↦
      rw (gather, n)
        (gather-distinct reply _ (
          distinct-insert eq_file eq_file-same eq_file_refl (row_key r) (row_counters r) g.current
            h))
]

pub data Direction : Type 0 where
  reading writing : Direction

-- The counter of operations in a direction.
abbrev pub operations : Direction → IoCounters → ℕ
operations reading c = c.reads
operations writing c = c.writes

module _ {F : Type 0} (fl : Floats F) where
  abbrev pub delta : Direction → IoLatencyRow fl → ℕ
  delta reading r = r.reads_delta
  delta writing r = r.writes_delta

  -- The operations on a file in a row, and in the rows together.
  abbrev pub count_of : Direction → FileKey → IoLatencyRow fl → ℕ
  count_of d k r =
      if eq_bytes r.database_name k.db && eq_bytes r.file_logical_name k.file then delta d r else 0

  abbrev pub counted : Direction → FileKey → List (IoLatencyRow fl) → ℕ
  counted d k rows = amounts (count_of d k) rows

  latency_row-counted :
      (d : Direction) (k : FileKey) (now : ℕ) (types : List (FileKey × Bytes)) (j : FileKey)
      (cur prior : IoCounters)
      → amount_of (count_of d k) (latency_row fl now types j cur prior)
        ≡ (if eq_file j k then operations d cur - operations d prior else 0)
  unfolding latency_row eq_file
  latency_row-counted reading k now types j cur prior = ground arith
  latency_row-counted writing k now types j cur prior = ground arith

  no_operations : (d : Direction) → operations d no_counters ≡ 0
  no_operations reading = refl
  no_operations writing = refl

  -- A poll that gets a reply adds rows that hold for each file, in each direction, together exactly
  -- the operations that its last reading in the reply counts over what the snapshot of the poll
  -- before held, with 0 for a file that is not in one of them and nothing if the counter went down;
  -- if no insert fails, and however long ago that snapshot was made.
  pub poll_io_latency-counted :
      (d : Direction) (k : FileKey) (reply : List IoRow) (update_fails : Bool) (now : ℕ)
      (prior : Snapshot) (rows : List (IoLatencyRow fl))
      → counted d k
          (poll_io_latency fl true
            (rows_of reply)
            (λ row. false)
            update_fails
            now
            (record { rows = rows; snapshot = some prior })).1.rows
        ≡ operations d (last_reading k no_counters reply)
          - operations d (prior_counters k prior)
          + counted d k rows
  unfolding poll_io_latency record_readings latency_rows
  poll_io_latency-counted d k reply update_fails now prior rows =
      let g = gather reply no_readings in
      let added = latency_rows fl (λ row. false) now g.file_types prior g.current in
      let known : prior_counters k g.current ≡ last_reading k no_counters reply =
        gather-last_reading k reply no_readings
        ∙ ap (λ c. last_reading k c reply) (get_or-nil eq_file no_counters k) in
      let last = ap (operations d) known in
      let once = gather-distinct reply no_readings refl in
      let new =
        difference_rows-amounts eq_file no_counters (latency_row fl now g.file_types) eq_file-same k
          (count_of d k) (operations d) (latency_row-counted d k now g.file_types) prior g.current
          (no_operations d) once in
      amounts-append (count_of d k) added rows ∙ omega (arith, last, new)
