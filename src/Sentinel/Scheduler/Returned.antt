-- ===== src/Sentinel/Scheduler/Returned.antt =====
-- What holds when `run` returns.
use dbopt.Base.{
  ℕ, zero, suc, ◌+◌, ◌≤◌, ◌≡◌, refl, ap, ◌∙◌, sym, Bool, true, false, not, Option-cases, inl, inr,
  ◌⊎◌, some_inj, subst, Option, none, some, List, [], ◌∷◌, if◌then◌else◌, length, get_elem?, take,
  all, arith,
}
use dbopt.Sentinel.Scheduler.{
  RunConfig, Task, spawned, Phase, waiting, polling, finished, Sched, all_waiting, first_sched,
  Event, cancel, tick, poll_ended, leave, join, is_waiting, is_polling, is_finished, set_phase,
  happen, happen_all, has_returned,
}

abbrev pub is_done : Phase → Bool
is_done finished = true
is_done _ = false

-- No task is done before the cancellation, and the handles that `run` got past are those of tasks that
-- are done.
pub record Orderly (s : Sched) : Type 0 where
  pub running : (s.cancelled ≡ true) ⊎ (all (λ p. not (is_done p)) s.phases ≡ true)
  pub passed : all is_done (take s.joined s.phases) ≡ true
  pub bound : s.joined ≤ length s.phases

pub waiting_at : (o : Option Phase) → is_waiting o ≡ true → o ≡ some waiting
waiting_at (some waiting) h = refl
waiting_at _ h = absurd cc

pub polling_at : (o : Option Phase) → is_polling o ≡ true → o ≡ some polling
polling_at (some polling) h = refl
polling_at _ h = absurd cc

pub finished_at : (o : Option Phase) → is_finished o ≡ true → o ≡ some finished
finished_at (some finished) h = refl
finished_at _ h = absurd cc

pub length-set_phase : (k : ℕ) (p : Phase) (ps : List Phase) → length (set_phase k p ps) ≡ length ps
unfolding set_phase
length-set_phase k p [] = refl
length-set_phase zero p (q ∷ ps) = refl
length-set_phase (suc k) p (q ∷ ps) = ap suc (length-set_phase k p ps)

-- Among tasks of which none is done, one that goes on is not done either.
running-set_phase :
    (k : ℕ) (p : Phase) (ps : List Phase)
    → is_done p ≡ false
    → all (λ q. not (is_done q)) ps ≡ true
    → all (λ q. not (is_done q)) (set_phase k p ps) ≡ true
unfolding set_phase
running-set_phase k p [] d h = refl
running-set_phase zero p (q ∷ ps) d h = rw d (ground (arith, h))
running-set_phase (suc k) p (q ∷ ps) d h =
    let rest = running-set_phase k p ps d (ground (arith, h)) in ground (arith, h, rest)

-- A task that is not done stands behind those that were passed, and they do not change with it.
passed-set_phase :
    (k j : ℕ) (p q : Phase) (ps : List Phase)
    → get_elem? ps k ≡ some q
    → is_done q ≡ false
    → all is_done (take j ps) ≡ true
    → all is_done (take j (set_phase k p ps)) ≡ true
unfolding set_phase
passed-set_phase k zero p q ps e d h = refl
passed-set_phase k (suc j) p q [] e d h = absurd cc
passed-set_phase zero (suc j) p q (r ∷ ps) e d h = absurd (ground (arith, e, d, h))
passed-set_phase (suc k) (suc j) p q (r ∷ ps) e d h =
    let rest = passed-set_phase k j p q ps e d (ground (arith, h)) in ground (arith, h, rest)

pub passed-join :
    (j : ℕ) (ps : List Phase)
    → get_elem? ps j ≡ some finished
    → all is_done (take j ps) ≡ true
    → (all is_done (take (suc j) ps) ≡ true) × (suc j ≤ length ps)
passed-join j [] e h = absurd cc
passed-join zero (r ∷ ps) e h =
    let last : r ≡ finished = some_inj r finished e in (rw last, omega arith)
passed-join (suc j) (r ∷ ps) e h =
    let rest = passed-join j ps e (ground (arith, h)) in
    (ground (arith, h, rest.0), omega (arith, rest.1))

-- What can happen is guarded.
pub guarded :
    (c : Bool) (x t : Sched) → (if c then some x else none) ≡ some t → (c ≡ true) × (x ≡ t)
guarded true x t h = (refl, some_inj x t h)
guarded false x t h = absurd cc

-- The phase of one task changes.
abbrev pub moved : ℕ → Phase → Sched → Sched
moved k p s = record s { phases = set_phase k p s.phases }

moved-Orderly :
    (k : ℕ) (p q : Phase) (s : Sched)
    → get_elem? s.phases k ≡ some q
    → is_done q ≡ false
    → (s.cancelled ≡ true) ⊎ (is_done p ≡ false)
    → Orderly s
    → Orderly (moved k p s)
moved-Orderly k p q s e d c o = record {
  running = elim o.running [
    | inl gone ↦ inl gone
    | inr none_done ↦ elim c [
      | inl gone ↦ inl gone
      | inr goes_on ↦ inr (running-set_phase k p s.phases goes_on none_done)
    ]
  ];
  passed = passed-set_phase k s.joined p q s.phases e d o.passed;
  bound = omega (arith, o.bound, length-set_phase k p s.phases);
}

pub happen-Orderly : (e : Event) (s t : Sched) → happen e s ≡ some t → Orderly s → Orderly t
unfolding happen
happen-Orderly cancel s t h o =
    subst Orderly (some_inj _ t h)
      (record { running = inl refl; passed = o.passed; bound = o.bound })
happen-Orderly (tick k) s t h o =
    let g = guarded _ _ t h in
    let here = waiting_at (get_elem? s.phases k) g.0 in
    subst Orderly g.1 (moved-Orderly k polling waiting s here refl (inr refl) o)
happen-Orderly (poll_ended k ok) s t h o =
    let g = guarded _ _ t h in
    let here = polling_at (get_elem? s.phases k) g.0 in
    subst Orderly g.1 (moved-Orderly k waiting polling s here refl (inr refl) o)
happen-Orderly (leave k) s t h o =
    let g = guarded _ _ t h in
    let gone : s.cancelled ≡ true = ground (arith, g.0) in
    let here = waiting_at (get_elem? s.phases k) (ground (arith, g.0)) in
    subst Orderly g.1 (moved-Orderly k finished waiting s here refl (inl gone) o)
happen-Orderly join s t h o =
    let g = guarded _ _ t h in
    let here = finished_at (get_elem? s.phases s.joined) g.0 in
    let more = passed-join s.joined s.phases here o.passed in
    let one : suc s.joined ≡ s.joined + 1 = omega arith in
    subst Orderly g.1 (record {
      running = o.running;
      passed = ap (λ n. all is_done (take n s.phases)) (sym one) ∙ more.0;
      bound = omega (arith, more.1);
    })

pub happen_all-Orderly :
    (es : List Event) (s t : Sched) → happen_all es s ≡ some t → Orderly s → Orderly t
unfolding happen_all
happen_all-Orderly [] s t h o = subst Orderly (some_inj s t h) o
happen_all-Orderly (e ∷ es) s t h o = elim (Option-cases (happen e s)) [
  | inl n ↦ let no = rw (happen_all, n) at h in absurd cc
  | inr (u, y) ↦
      let rest : happen_all es u ≡ some t = rw (happen_all, y) at h in
      happen_all-Orderly es u t rest (happen-Orderly e s u y o)
]

all_waiting-running : (ts : List Task) → all (λ p. not (is_done p)) (all_waiting ts) ≡ true
all_waiting-running [] = refl
all_waiting-running (t ∷ ts) = all_waiting-running ts

pub first-Orderly : (cfg : RunConfig) → Orderly (first_sched cfg)
first-Orderly cfg = record {
  running = inr (all_waiting-running (spawned cfg));
  passed = refl;
  bound = omega arith;
}

take-all : (ps : List Phase) → take (length ps) ps ≡ ps
take-all [] = refl
take-all (p ∷ ps) = ap (◌∷◌ p) (take-all ps)

-- Where all tasks are done and there is one, not none is.
some_done :
    (ps : List Phase)
    → 1 ≤ length ps
    → all is_done ps ≡ true
    → all (λ p. not (is_done p)) ps ≡ false
some_done [] h d = absurd (omega (arith, h))
some_done (p ∷ ps) h d = ground (arith, d)

-- Behind all handles, all tasks are done.
pub Orderly-done :
    (s : Sched) → Orderly s → s.joined ≡ length s.phases → all is_done s.phases ≡ true
Orderly-done s o whole =
    ap (all is_done) (sym (take-all s.phases))
    ∙ ap (λ k. all is_done (take k s.phases)) (sym whole)
    ∙ o.passed

-- Whatever happens to the tasks of a configuration: when `run` has returned every task has left its
-- loop, none of them amid a poll, and if there is a task at all the token was cancelled.
pub run-returned :
    (cfg : RunConfig) (es : List Event) (s : Sched)
    → happen_all es (first_sched cfg) ≡ some s
    → has_returned s ≡ true
    → 1 ≤ length s.phases
    → (all is_done s.phases ≡ true) × (s.cancelled ≡ true)
run-returned cfg es s h r n =
    let o = happen_all-Orderly es (first_sched cfg) s h (first-Orderly cfg) in
    let whole : s.joined ≡ length s.phases = ground (arith, r) in
    let done = Orderly-done s o whole in
    (
      done,
      elim o.running [
        | inl gone ↦ gone
        | inr none_done ↦ let no = some_done s.phases n done in absurd cc
      ],
    )
