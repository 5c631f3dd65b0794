-- ===== src/Sentinel/Waits/Deltas.antt =====
-- The rows of the wait statistics against the totals of the polls.
use dbopt.Base.{
  ℕ, ◌+◌, ◌-◌, ◌≤◌, ◌≡◌, refl, sym, ap, subst, ◌∙◌, true, false, Bool-cases, Option, none, some,
  List, [], ◌∷◌, ◌++◌, leb, if◌then◌else◌, inl, inr, arith,
}
use dbopt.Base.Bytes.{Bytes, eq_bytes}
use dbopt.Base.Bytes.Laws.{eq_bytes_iff, eq_bytes_refl}
use dbopt.Sentinel.Floats.{ℤ}
use dbopt.Sentinel.Differences.{amount_of, amounts, amounts-append, difference_rows-amounts}
use dbopt.Sentinel.Keyed.{
  get, get_or, distinct, get_or-here, get_or-later, get_or-nil, distinct-insert,
}
use dbopt.Sentinel.Waits.{
  Totals, Snapshot, WaitDeltaRow, baseline_max_gap_ms, went_down, has_decreased, baseline,
  no_totals, delta_row, delta_rows, WaitStore, age, within_gap, polled_rows, record_totals, WaitRow,
  row_totals, named, add_totals, gather_totals, rows_of, poll_wait_stats,
}

-- The wait time of a type in a row, and in the rows together.
abbrev pub wait_of : Bytes → WaitDeltaRow → ℕ
wait_of k r = if eq_bytes r.wait_type k then r.wait_time_ms_delta else 0

abbrev pub waited : Bytes → List WaitDeltaRow → ℕ
waited k rows = amounts (wait_of k) rows

abbrev pub total_of : Bytes → Snapshot → ℕ
total_of k m = (get_or eq_bytes no_totals k m).total

eq_bytes-same : (j k : Bytes) → eq_bytes j k ≡ true → j ≡ k
eq_bytes-same j k = (eq_bytes_iff j k).0

delta_row-waited :
    (k : Bytes) (now : ℕ) (j : Bytes) (cur prev : Totals)
    → amount_of (wait_of k) (delta_row now j cur prev)
      ≡ (if eq_bytes j k then cur.total - prev.total else 0)
unfolding delta_row
delta_row-waited k now j cur prev = ground arith

-- Where no insert fails, the rows of a poll hold for every wait type together what its total went up
-- by, and nothing if it went down; a type without prior totals is counted from 0.
pub delta_rows-waited :
    (k : Bytes) (now : ℕ) (prev m : Snapshot)
    → distinct eq_bytes m ≡ true
    → waited k (delta_rows (λ row. false) now prev m) ≡ total_of k m - total_of k prev
unfolding delta_rows
delta_rows-waited k now prev m once =
    difference_rows-amounts eq_bytes no_totals (delta_row now) eq_bytes-same k (wait_of k)
      (λ t. t.total) (delta_row-waited k now) prev m refl once

add_totals-distinct :
    (o : Option Bytes) (t : Totals) (m : Snapshot)
    → distinct eq_bytes m ≡ true
    → distinct eq_bytes (add_totals o t m) ≡ true
add_totals-distinct none t m h = h
add_totals-distinct (some k) t m h = distinct-insert eq_bytes eq_bytes-same eq_bytes_refl k t m h

gather_totals-distinct :
    (reply : List WaitRow) (m : Snapshot)
    → distinct eq_bytes m ≡ true
    → distinct eq_bytes (gather_totals reply m) ≡ true
unfolding gather_totals
gather_totals-distinct [] m h = h
gather_totals-distinct (r ∷ reply) m h =
    gather_totals-distinct reply _ (add_totals-distinct (named r) (row_totals r) m h)

-- A wait type of the prior totals whose total went down is noticed.
not_decreased :
    (k : Bytes) (prev current : Snapshot) (c : Totals)
    → get eq_bytes k current ≡ some c
    → has_decreased prev current ≡ false
    → total_of k prev ≤ c.total
unfolding has_decreased
not_decreased k [] current c g h =
    let nothing = ap (λ t. t.total) (get_or-nil eq_bytes no_totals k) in omega (arith, nothing)
not_decreased k ((j, p) ∷ prev) current c g h = elim (Bool-cases (eq_bytes j k)) [
  | inl e ↦
      let same : j ≡ k = (eq_bytes_iff j k).0 e in
      let gj : get eq_bytes j current ≡ some c =
        subst (λ x. get eq_bytes x current ≡ some c) (sym same) g in
      let down : went_down (get eq_bytes j current) p ≡ false = ground (arith, h) in
      rw (total_of, get_or-here eq_bytes no_totals k j p prev e) (ground (arith, rw gj at down))
  | inr e ↦
      rw (total_of, get_or-later eq_bytes no_totals k j p prev e)
        (not_decreased k prev current c g (ground (arith, h)))
]

-- Polls at these times with these replies, with working statements.
abbrev pub polls : List (ℕ × List WaitRow) → WaitStore → WaitStore
polls [] st = st
polls ((now, reply) ∷ ps) st =
    polls ps (poll_wait_stats true (rows_of reply) (λ row. false) false now st).1

-- Each poll follows the one before within the gap, no counter goes down, and this wait type is in
-- each reply.
pub data Steady (k : Bytes) : Snapshot → ℕ → List (ℕ × List WaitRow) → Snapshot → Type 0 where
  last : {prev : Snapshot} {t : ℕ} → Steady k prev t [] prev
  poll :
      {prev end : Snapshot} {t : ℕ} {ps : List (ℕ × List WaitRow)} {c : Totals} (now : ℕ)
      (reply : List WaitRow)
      → t ≤ now
      → now ≤ t + baseline_max_gap_ms
      → has_decreased prev (gather_totals reply []) ≡ false
      → get eq_bytes k (gather_totals reply []) ≡ some c
      → Steady k (gather_totals reply []) now ps end
      → Steady k prev t ((now, reply) ∷ ps) end

age-within : (now t : ℕ) → t ≤ now → now ≤ t + baseline_max_gap_ms → within_gap (age now t) ≡ true
age-within now t after gap =
    let forward : leb t now ≡ true = ground arith in rw forward (ground arith)

baseline-steady :
    (a : ℤ) (prev current : Snapshot)
    → within_gap a ≡ true
    → has_decreased prev current ≡ false
    → baseline (some (prev, a)) current ≡ some prev
unfolding baseline
baseline-steady a prev current near up = rw (up, near)

polled_rows-steady :
    (now t : ℕ) (prev current : Snapshot)
    → t ≤ now
    → now ≤ t + baseline_max_gap_ms
    → has_decreased prev current ≡ false
    → polled_rows (λ row. false) now (some (prev, t)) current
      ≡ delta_rows (λ row. false) now prev current
unfolding polled_rows
polled_rows-steady now t prev current after gap up =
    ap
      (λ b. elim b as (λ x. List WaitDeltaRow) [
        | none ↦ []
        | some p ↦ delta_rows (λ row. false) now p current
      ])
      (baseline-steady (age now t) prev current (age-within now t after gap) up)

total_of-some :
    (k : Bytes) (m : Snapshot) (c : Totals) → get eq_bytes k m ≡ some c → total_of k m ≡ c.total
unfolding get_or
total_of-some k m c g = rw (total_of, get_or, g)

polls-total_of :
    (k : Bytes) (prev end : Snapshot) (t : ℕ) (ps : List (ℕ × List WaitRow))
    (rows : List WaitDeltaRow)
    → Steady k prev t ps end
    → waited k (polls ps (record { rows = rows; snapshot = some (prev, t) })).rows + total_of k prev
      ≡ waited k rows + total_of k end
unfolding poll_wait_stats record_totals
polls-total_of k prev end t ps rows last = refl
polls-total_of k prev end t ((now, reply) ∷ ps) rows (poll {c} _ _ after gap up here more) =
    let current = gather_totals reply [] in
    let added = delta_rows (λ row. false) now prev current in
    let next = polls-total_of k current end now ps (added ++ rows) more in
    ap
      (λ l.
        waited k (polls ps (record { rows = l ++ rows; snapshot = some (current, now) })).rows
        + total_of k prev)
      (polled_rows-steady now t prev current after gap up)
    ∙ omega (
      arith,
      next,
      amounts-append (wait_of k) added rows,
      delta_rows-waited k now prev current (gather_totals-distinct reply [] refl),
      not_decreased k prev current c here up,
      total_of-some k current c here,
    )

-- If a wait type is in the snapshot that the polls start from and in each reply, each poll follows the
-- one before within the gap, no counter goes down and the statements work, then over any number of
-- polls the rows added hold together exactly what the total of the wait type went up by.
pub polls-waited :
    (k : Bytes) (prev end : Snapshot) (t : ℕ) (first : Totals) (ps : List (ℕ × List WaitRow))
    (rows : List WaitDeltaRow)
    → get eq_bytes k prev ≡ some first
    → Steady k prev t ps end
    → waited k (polls ps (record { rows = rows; snapshot = some (prev, t) })).rows + first.total
      ≡ waited k rows + total_of k end
polls-waited k prev end t first ps rows here steady =
    omega (arith, polls-total_of k prev end t ps rows steady, total_of-some k prev first here)
