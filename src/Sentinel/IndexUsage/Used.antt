-- ===== src/Sentinel/IndexUsage/Used.antt =====
-- The rows of the index usage against the replies of the server.
use dbopt.Base.{
  ℕ, ◌+◌, ◌-◌, ◌≡◌, refl, ap, ◌∙◌, Bool, true, false, not, ◌&&◌, ◌||◌, any, ltb, Option, none, some,
  List, [], ◌∷◌, leb, if◌then◌else◌, arith,
}
use dbopt.Base.Bytes.Laws.{eq_bytes_iff, eq_bytes_refl}
use dbopt.Sentinel.Differences.{amount_of, amounts, amounts-append, difference_rows-amounts}
use dbopt.Sentinel.Keyed.{get, get_or, distinct, get_or-nil, get_or-insert, distinct-insert}
use dbopt.Sentinel.Waits.{age, delta_is_trustworthy}
use dbopt.Sentinel.IndexUsage.{
  IndexKey, eq_index, UsageCounters, no_usage, UsageRow, usage_key, usage_counters, UsageSnapshot,
  gather_usage, went_back, has_gone_back, usage_baseline, IndexUsageDeltaRow, usage_row, usage_rows,
  rows_of, poll_index_usage_delta,
}

eq_index-same : (j k : IndexKey) → eq_index j k ≡ true → j ≡ k
unfolding eq_index
eq_index-same j k h =
    let d : j.db ≡ k.db = (eq_bytes_iff j.db k.db).0 (ground (arith, h)) in
    let s : j.schema ≡ k.schema = (eq_bytes_iff j.schema k.schema).0 (ground (arith, h)) in
    let t : j.table ≡ k.table = (eq_bytes_iff j.table k.table).0 (ground (arith, h)) in
    let n : j.index ≡ k.index = (eq_bytes_iff j.index k.index).0 (ground (arith, h)) in
    λ i. record { db = d i; schema = s i; table = t i; index = n i }

eq_index_refl : (k : IndexKey) → eq_index k k ≡ true
unfolding eq_index
eq_index_refl k =
    rw (eq_bytes_refl k.db, eq_bytes_refl k.schema, eq_bytes_refl k.table, eq_bytes_refl k.index)

-- The last counters of an index in a reply, or else those given.
abbrev pub last_usage : IndexKey → UsageCounters → List UsageRow → UsageCounters
last_usage k c [] = c
last_usage k c (r ∷ reply) =
    last_usage k (if eq_index (usage_key r) k then usage_counters r else c) reply

gather_usage-last :
    (d : UsageCounters) (k : IndexKey) (reply : List UsageRow) (m : UsageSnapshot)
    → get_or eq_index d k (gather_usage reply m) ≡ last_usage k (get_or eq_index d k m) reply
unfolding gather_usage
gather_usage-last d k [] m = refl
gather_usage-last d k (r ∷ reply) m =
    gather_usage-last d k reply _
    ∙ ap (λ c. last_usage k c reply)
        (get_or-insert eq_index eq_index-same eq_index_refl d k (usage_key r) (usage_counters r) m)

gather_usage-distinct :
    (reply : List UsageRow) (m : UsageSnapshot)
    → distinct eq_index m ≡ true
    → distinct eq_index (gather_usage reply m) ≡ true
unfolding gather_usage
gather_usage-distinct [] m h = h
gather_usage-distinct (r ∷ reply) m h =
    gather_usage-distinct reply _
      (distinct-insert eq_index eq_index-same eq_index_refl (usage_key r) (usage_counters r) m h)

pub data Use : Type 0 where
  seek scan lookup update : Use

abbrev pub uses : Use → UsageCounters → ℕ
uses seek c = c.seeks
uses scan c = c.scans
uses lookup c = c.lookups
uses update c = c.updates

abbrev pub use_delta : Use → IndexUsageDeltaRow → ℕ
use_delta seek r = r.seeks_delta
use_delta scan r = r.scans_delta
use_delta lookup r = r.lookups_delta
use_delta update r = r.updates_delta

abbrev pub row_index : IndexUsageDeltaRow → IndexKey
row_index r = record {
  db = r.db_name;
  schema = r.schema_name;
  table = r.table_name;
  index = r.index_name;
}

-- The uses of an index in a row, and in the rows together.
abbrev pub uses_of : Use → IndexKey → IndexUsageDeltaRow → ℕ
uses_of u k r = if eq_index (row_index r) k then use_delta u r else 0

abbrev pub used : Use → IndexKey → List IndexUsageDeltaRow → ℕ
used u k rows = amounts (uses_of u k) rows

usage_row-used :
    (u : Use) (k : IndexKey) (now : ℕ) (j : IndexKey) (cur prior : UsageCounters)
    → amount_of (uses_of u k) (usage_row now j cur prior)
      ≡ (if eq_index j k then uses u cur - uses u prior else 0)
unfolding usage_row
usage_row-used seek k now j cur prior = ground arith
usage_row-used scan k now j cur prior = ground arith
usage_row-used lookup k now j cur prior = ground arith
usage_row-used update k now j cur prior = ground arith

no_uses : (u : Use) → uses u no_usage ≡ 0
no_uses seek = refl
no_uses scan = refl
no_uses lookup = refl
no_uses update = refl

-- One of the counters is lower.
abbrev pub is_lower : UsageCounters → UsageCounters → Bool
is_lower c p =
    (ltb c.seeks p.seeks || ltb c.scans p.scans)
    || (ltb c.lookups p.lookups || ltb c.updates p.updates)

-- Does the reply count less of an index than a snapshot does?
abbrev pub has_fallen : UsageSnapshot → List UsageRow → Bool
has_fallen prev reply = any (λ e. is_lower (last_usage e.0 e.1 reply) e.1) prev

went_back-or :
    (o : Option UsageCounters) (p : UsageCounters)
    → went_back o p ≡ is_lower (elim o [ none ↦ p | some c ↦ c ]) p
went_back-or none p = ground arith
went_back-or (some c) p = refl

went_back-gather :
    (k : IndexKey) (p : UsageCounters) (reply : List UsageRow)
    → went_back (get eq_index k (gather_usage reply [])) p ≡ is_lower (last_usage k p reply) p
unfolding get_or
went_back-gather k p reply =
    went_back-or (get eq_index k (gather_usage reply [])) p
    ∙ ap (λ c. is_lower c p)
        (gather_usage-last p k reply [] ∙ ap (λ c. last_usage k c reply) (get_or-nil eq_index p k))

has_gone_back-fallen :
    (prev : UsageSnapshot) (reply : List UsageRow)
    → has_gone_back prev (gather_usage reply []) ≡ has_fallen prev reply
unfolding has_gone_back
has_gone_back-fallen [] reply = refl
has_gone_back-fallen ((k, p) ∷ prev) reply =
    rw (has_gone_back, has_fallen, went_back-gather k p reply)
      (ap (λ b. is_lower (last_usage k p reply) p || b) (has_gone_back-fallen prev reply))

-- The snapshot is not from the future, nor older than an hour.
abbrev pub is_recent : ℕ → ℕ → Bool
is_recent now written = leb written now && leb now (written + 3600000)

trustworthy-recent :
    (now written : ℕ) (b : Bool)
    → delta_is_trustworthy (age now written) b ≡ (is_recent now written && not b)
unfolding delta_is_trustworthy
trustworthy-recent now written b = ground arith

-- What the rows of a poll hold, by whether there is a baseline.
usage_rows-used :
    (u : Use) (k : IndexKey) (reply : List UsageRow) (now : ℕ) (prev : UsageSnapshot) (b : Bool)
    → used u k
        (usage_rows (λ row. false) now (if b then some prev else none) (gather_usage reply []))
      ≡ (if b
          then uses u (last_usage k no_usage reply) - uses u (get_or eq_index no_usage k prev)
          else 0)
unfolding usage_rows
usage_rows-used u k reply now prev false = refl
usage_rows-used u k reply now prev true =
    difference_rows-amounts eq_index no_usage (usage_row now) eq_index-same k (uses_of u k) (uses u)
      (usage_row-used u k now) prev (gather_usage reply []) (no_uses u)
      (gather_usage-distinct reply [] refl)
    ∙ ap (λ c. uses u c - uses u (get_or eq_index no_usage k prev))
        (gather_usage-last no_usage k reply []
          ∙ ap (λ c. last_usage k c reply) (get_or-nil eq_index no_usage k))

usage_baseline-recent :
    (now written : ℕ) (prev : UsageSnapshot) (reply : List UsageRow)
    → usage_baseline now (some (prev, written)) (gather_usage reply [])
      ≡ (if is_recent now written && not (has_fallen prev reply) then some prev else none)
unfolding usage_baseline
usage_baseline-recent now written prev reply =
    ap (λ b. if b then some prev else none)
      (trustworthy-recent now written (has_gone_back prev (gather_usage reply []))
        ∙ ap (λ b. is_recent now written && not b) (has_gone_back-fallen prev reply))

-- A poll that gets a reply adds rows that hold for each index, of each kind of use, together exactly
-- what its last counters in the reply count over what the snapshot of the poll before held, with 0 for
-- an index that is not in one of them, if that snapshot was written within the last hour and the
-- reply counts no index of it less; otherwise they hold nothing. No insert fails in that.
pub poll_index_usage_delta-used :
    (u : Use) (k : IndexKey) (reply : List UsageRow) (update_fails : Bool) (now : ℕ)
    (prev : UsageSnapshot) (written : ℕ) (rows : List IndexUsageDeltaRow)
    → used u k
        (poll_index_usage_delta true
          (rows_of reply)
          (λ row. false)
          update_fails
          now
          (record { rows = rows; snapshot = some (prev, written) })).1.rows
      ≡ (if is_recent now written && not (has_fallen prev reply)
          then uses u (last_usage k no_usage reply) - uses u (get_or eq_index no_usage k prev)
          else 0)
        + used u k rows
unfolding poll_index_usage_delta
poll_index_usage_delta-used u k reply update_fails now prev written rows =
    let current = gather_usage reply [] in
    let baseline = usage_baseline now (some (prev, written)) current in
    amounts-append (uses_of u k) (usage_rows (λ row. false) now baseline current) rows
    ∙ ap (λ o. used u k (usage_rows (λ row. false) now o current) + used u k rows)
        (usage_baseline-recent now written prev reply)
    ∙ ap (λ n. n + used u k rows)
        (usage_rows-used u k reply now prev (is_recent now written && not (has_fallen prev reply)))
