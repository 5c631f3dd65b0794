-- ===== src/Sentinel/Scheduler/Ends.antt =====
-- The tasks end unless timers start new polls: what the other events leave to do.
use dbopt.Base.{
  ◌==◌, ◌≤◌, Bool-cases, ℕ, zero, suc, ◌+◌, ◌-◌, ◌<◌, ◌≡◌, refl, ap, ◌∙◌, sym, subst, some_inj,
  Option-cases, inl, inr, true, some, List, [], ◌∷◌, length, get_elem?, all, arith,
}
use dbopt.Sentinel.Scheduler.{
  has_returned, RunConfig, Phase, waiting, polling, finished, Sched, first_sched, Event, cancel,
  tick, poll_ended, leave, join, set_phase, happen, happen_all,
}
use dbopt.Sentinel.Scheduler.Returned.{
  Orderly, is_done, happen-Orderly, Orderly-done, guarded, moved, waiting_at, polling_at,
  finished_at, length-set_phase, passed-join, happen_all-Orderly, first-Orderly,
}
use dbopt.Sentinel.Scheduler.Shutdown.{is_closing, weight, work, work_left}

work-set_phase :
    (k : ℕ) (p q : Phase) (ps : List Phase)
    → get_elem? ps k ≡ some q
    → work (set_phase k p ps) + weight q ≡ work ps + weight p
unfolding set_phase
work-set_phase k p q [] e = absurd cc
work-set_phase zero p q (r ∷ ps) e = let same = ap weight (some_inj r q e) in omega (arith, same)
work-set_phase (suc k) p q (r ∷ ps) e = omega (arith, work-set_phase k p q ps e)

-- A task that goes on to a phase with less work.
moved-work :
    (k : ℕ) (p q : Phase) (s t : Sched)
    → get_elem? s.phases k ≡ some q
    → weight p + 1 ≡ weight q
    → moved k p s ≡ t
    → work_left t + 1 ≡ work_left s
moved-work k p q s t e w m =
    let size = length-set_phase k p s.phases in
    let less = work-set_phase k p q s.phases e in
    let here : work_left (moved k p s) + 1 ≡ work_left s = omega (arith, size, less, w) in
    subst (λ u. work_left u + 1 ≡ work_left s) m here

-- Each end of a poll, each task that leaves and each handle that `run` gets past leaves one less to do.
happen-work :
    (s : Sched) (e : Event) (t : Sched)
    → Orderly s
    → happen e s ≡ some t
    → is_closing e ≡ true
    → work_left t + 1 ≡ work_left s
unfolding happen
happen-work s cancel t o h c = absurd cc
happen-work s (tick k) t o h c = absurd cc
happen-work s (poll_ended k ok) t o h c =
    let g = guarded _ _ t h in
    moved-work k waiting polling s t (polling_at (get_elem? s.phases k) g.0) refl g.1
happen-work s (leave k) t o h c =
    let g = guarded _ _ t h in
    let here = waiting_at (get_elem? s.phases k) (ground (arith, g.0)) in
    moved-work k finished waiting s t here refl g.1
happen-work s join t o h c =
    let g = guarded _ _ t h in
    let here = finished_at (get_elem? s.phases s.joined) g.0 in
    let more = passed-join s.joined s.phases here o.passed in
    let less : work s.phases + (length s.phases - (s.joined + 1)) + 1 ≡ work_left s =
      omega (arith, more.1) in
    subst (λ u. work_left u + 1 ≡ work_left s) g.1 less

-- Any number of such events leave as much less to do.
happen_all-work :
    (fs : List Event) (s t : Sched)
    → Orderly s
    → happen_all fs s ≡ some t
    → all is_closing fs ≡ true
    → length fs + work_left t ≡ work_left s
unfolding happen_all
happen_all-work [] s t o h c = omega (arith, ap work_left (some_inj s t h))
happen_all-work (e ∷ fs) s t o h c = elim (Option-cases (happen e s)) [
  | inl n ↦ let no = rw (happen_all, n) at h in absurd cc
  | inr (u, y) ↦
      let rest : happen_all fs u ≡ some t = rw (happen_all, y) at h in
      let one = happen-work s e u o y (ground (arith, c)) in
      let more = happen_all-work fs u t (happen-Orderly e s u y o) rest (ground (arith, c)) in
      omega (arith, one, more)
]

all_done-work : (ps : List Phase) → all is_done ps ≡ true → work ps ≡ 0
all_done-work [] h = refl
all_done-work (waiting ∷ ps) h = absurd cc
all_done-work (polling ∷ ps) h = absurd cc
all_done-work (finished ∷ ps) h = omega (arith, all_done-work ps h)

-- `run` has returned exactly if nothing is left to do.
returned-work : (s : Sched) → Orderly s → has_returned s ≡ (work_left s == 0)
returned-work s o = elim (Bool-cases (has_returned s)) [
  | inl r ↦
      let whole : s.joined ≡ length s.phases = ground (arith, r) in
      let done = all_done-work s.phases (Orderly-done s o whole) in
      let nothing : work_left s ≡ 0 = omega (arith, done, whole) in
      r ∙ sym (ground (arith, nothing))
  | inr r ↦
      let less : s.joined < length s.phases = ground (arith, r, o.bound) in
      let some_left : 1 ≤ work_left s = omega (arith, less) in r ∙ sym (ground (arith, some_left))
]

-- From any state that the tasks of a configuration reach, every sequence of ends of polls, of tasks that
-- leave and of handles that `run` gets past is bounded: in whatever order these events come, they are
-- as many as the work that they take off what is left, so never more than is left at the start; and
-- `run` has returned behind them exactly if nothing is left.
pub closing-ends :
    (cfg : RunConfig) (es fs : List Event) (s t : Sched)
    → happen_all es (first_sched cfg) ≡ some s
    → happen_all fs s ≡ some t
    → all is_closing fs ≡ true
    → (length fs + work_left t ≡ work_left s) × (has_returned t ≡ (work_left t == 0))
closing-ends cfg es fs s t r h c =
    let o = happen_all-Orderly es (first_sched cfg) s r (first-Orderly cfg) in
    (happen_all-work fs s t o h c, returned-work t (happen_all-Orderly fs s t h o))
