-- ===== src/Sentinel/Scheduler/Shutdown.antt =====
-- Behind the cancellation `run` can return without another poll, and how soon.
use dbopt.Base.{
  ℕ, zero, suc, ◌+◌, ◌-◌, ◌<◌, ◌≡◌, refl, ap, ◌∙◌, sym, some_inj, Option-cases, inl, inr, Bool,
  true, false, some, List, [], ◌∷◌, ◌++◌, length, get_elem?, all, length-append, append_assoc,
  arith,
}
use dbopt.Sentinel.Scheduler.{
  RunConfig, Phase, waiting, polling, finished, Sched, first_sched, Event, cancel, tick, poll_ended,
  leave, join, set_phase, happen, happen_all,
}
use dbopt.Sentinel.Scheduler.Returned.{happen_all-Orderly, first-Orderly}

-- Nothing but the ends of polls, tasks that leave, and handles that `run` gets past.
abbrev pub is_closing : Event → Bool
is_closing cancel = false
is_closing (tick k) = false
is_closing _ = true

-- How much is left for a task to do: to end its poll, and to leave.
abbrev pub weight : Phase → ℕ
weight waiting = 1
weight polling = 2
weight finished = 0

abbrev pub work : List Phase → ℕ
work [] = 0
work (p ∷ ps) = weight p + work ps

abbrev pub work_left : Sched → ℕ
work_left s = work s.phases + (length s.phases - s.joined)

abbrev closing_task : ℕ → Phase → List Event
closing_task k waiting = leave k ∷ []
closing_task k polling = poll_ended k true ∷ leave k ∷ []
closing_task k finished = []

abbrev closing_tasks : ℕ → List Phase → List Event
closing_tasks k [] = []
closing_tasks k (p ∷ ps) = closing_task k p ++ closing_tasks (k + 1) ps

abbrev joins : ℕ → List Event
joins zero = []
joins (suc n) = join ∷ joins n

abbrev pub all_done : List Phase → List Phase
all_done [] = []
all_done (p ∷ ps) = finished ∷ all_done ps

happen_all-append :
    (es fs : List Event) (s t : Sched)
    → happen_all es s ≡ some t
    → happen_all (es ++ fs) s ≡ happen_all fs t
unfolding happen_all
happen_all-append [] fs s t h = ap (happen_all fs) (some_inj s t h)
happen_all-append (e ∷ es) fs s t h = elim (Option-cases (happen e s)) [
  | inl n ↦ let no = rw (happen_all, n) at h in absurd cc
  | inr (u, y) ↦
      let rest : happen_all es u ≡ some t = rw (happen_all, y) at h in
      rw (happen_all, y) (happen_all-append es fs u t rest)
]

get_elem?-behind :
    (before ps : List Phase) (p : Phase) → get_elem? (before ++ p ∷ ps) (length before) ≡ some p
get_elem?-behind [] ps p = refl
get_elem?-behind (q ∷ before) ps p = get_elem?-behind before ps p

set_phase-behind :
    (before ps : List Phase) (p q : Phase)
    → set_phase (length before) q (before ++ p ∷ ps) ≡ before ++ q ∷ ps
unfolding set_phase
set_phase-behind [] ps p q = refl
set_phase-behind (r ∷ before) ps p q = ap (◌∷◌ r) (set_phase-behind before ps p q)

-- A cancelled scheduler.
abbrev stopped : List Phase → ℕ → Sched
stopped ps j = record { cancelled = true; phases = ps; joined = j }

leave-behind :
    (before ps : List Phase) (j : ℕ)
    → happen (leave (length before)) (stopped (before ++ waiting ∷ ps) j)
      ≡ some (stopped (before ++ finished ∷ ps) j)
unfolding happen
leave-behind before ps j =
    rw (get_elem?-behind before ps waiting, set_phase-behind before ps waiting finished)

poll_ended-behind :
    (before ps : List Phase) (j : ℕ)
    → happen (poll_ended (length before) true) (stopped (before ++ polling ∷ ps) j)
      ≡ some (stopped (before ++ waiting ∷ ps) j)
unfolding happen
poll_ended-behind before ps j =
    rw (get_elem?-behind before ps polling, set_phase-behind before ps polling waiting)

happen_all-cons :
    (e : Event) (es : List Event) (s t : Sched)
    → happen e s ≡ some t
    → happen_all (e ∷ es) s ≡ happen_all es t
unfolding happen_all
happen_all-cons e es s t h = rw (happen_all, h) refl

happen_all-nil : (s : Sched) → happen_all [] s ≡ some s
unfolding happen_all
happen_all-nil s = refl

closing_task-done :
    (before ps : List Phase) (p : Phase) (j : ℕ)
    → happen_all (closing_task (length before) p) (stopped (before ++ p ∷ ps) j)
      ≡ some (stopped (before ++ finished ∷ ps) j)
closing_task-done before ps waiting j =
    happen_all-cons (leave (length before)) [] _ _ (leave-behind before ps j) ∙ happen_all-nil _
closing_task-done before ps polling j =
    happen_all-cons (poll_ended (length before) true) (leave (length before) ∷ []) _ _
      (poll_ended-behind before ps j)
    ∙ happen_all-cons (leave (length before)) [] _ _ (leave-behind before ps j)
    ∙ happen_all-nil _
closing_task-done before ps finished j = happen_all-nil _

closing_tasks-done :
    (before ps : List Phase) (j : ℕ)
    → happen_all (closing_tasks (length before) ps) (stopped (before ++ ps) j)
      ≡ some (stopped (before ++ all_done ps) j)
closing_tasks-done before [] j = happen_all-nil _
closing_tasks-done before (p ∷ ps) j =
    let one = finished ∷ [] in
    let size : length before + 1 ≡ length (before ++ one) = sym (length-append before one) in
    happen_all-append (closing_task (length before) p) (closing_tasks (length before + 1) ps) _ _
      (closing_task-done before ps p j)
    ∙ ap (λ n. happen_all (closing_tasks n ps) (stopped (before ++ finished ∷ ps) j)) size
    ∙ ap (λ l. happen_all (closing_tasks (length (before ++ one)) ps) (stopped l j))
        (sym (append_assoc before one ps))
    ∙ closing_tasks-done (before ++ one) ps j
    ∙ ap (λ l. some (stopped l j)) (append_assoc before one (all_done ps))

all_done-get : (ps : List Phase) (j : ℕ) → j < length ps → get_elem? (all_done ps) j ≡ some finished
all_done-get [] j h = absurd (omega (arith, h))
all_done-get (p ∷ ps) zero h = refl
all_done-get (p ∷ ps) (suc j) h = all_done-get ps j (omega (arith, h))

length-all_done : (ps : List Phase) → length (all_done ps) ≡ length ps
length-all_done [] = refl
length-all_done (p ∷ ps) = ap suc (length-all_done ps)

join-done :
    (ps : List Phase) (j : ℕ)
    → j < length ps
    → happen join (stopped (all_done ps) j) ≡ some (stopped (all_done ps) (j + 1))
unfolding happen
join-done ps j h = rw (all_done-get ps j h)

joins-done :
    (n : ℕ) (ps : List Phase) (j : ℕ)
    → j + n ≡ length ps
    → happen_all (joins n) (stopped (all_done ps) j) ≡ some (stopped (all_done ps) (j + n))
joins-done zero ps j h =
    let same : j ≡ j + 0 = omega arith in
    happen_all-nil _ ∙ ap (λ k. some (stopped (all_done ps) k)) same
joins-done (suc n) ps j h =
    let same : j + 1 + n ≡ j + suc n = omega arith in
    happen_all-cons join (joins n) _ _ (join-done ps j (omega (arith, h)))
    ∙ joins-done n ps (j + 1) (omega (arith, h))
    ∙ ap (λ k. some (stopped (all_done ps) k)) same

-- All that is left to happen.
abbrev pub closing : Sched → List Event
closing s = closing_tasks 0 s.phases ++ joins (length s.phases - s.joined)

length-closing_tasks : (k : ℕ) (ps : List Phase) → length (closing_tasks k ps) ≡ work ps
length-closing_tasks k [] = refl
length-closing_tasks k (waiting ∷ ps) = omega (arith, length-closing_tasks (k + 1) ps)
length-closing_tasks k (polling ∷ ps) = omega (arith, length-closing_tasks (k + 1) ps)
length-closing_tasks k (finished ∷ ps) = omega (arith, length-closing_tasks (k + 1) ps)

length-joins : (n : ℕ) → length (joins n) ≡ n
length-joins zero = refl
length-joins (suc n) = ap suc (length-joins n)

closing_tasks-closing :
    (k : ℕ) (ps : List Phase) (es : List Event)
    → all is_closing es ≡ true
    → all is_closing (closing_tasks k ps ++ es) ≡ true
closing_tasks-closing k [] es h = h
closing_tasks-closing k (waiting ∷ ps) es h = closing_tasks-closing (k + 1) ps es h
closing_tasks-closing k (polling ∷ ps) es h = closing_tasks-closing (k + 1) ps es h
closing_tasks-closing k (finished ∷ ps) es h = closing_tasks-closing (k + 1) ps es h

joins-closing : (n : ℕ) → all is_closing (joins n) ≡ true
joins-closing zero = refl
joins-closing (suc n) = joins-closing n

-- However the tasks of a configuration ran up to the cancellation and behind it, `run` can return: the
-- polls that still run end, each task leaves, and `run` gets past its handles. No poll starts in that,
-- every task is done at the end, and it takes as many events as work is left, two at most for each
-- task and one for each handle.
pub stop-returns :
    (cfg : RunConfig) (es : List Event) (s : Sched)
    → happen_all es (first_sched cfg) ≡ some s
    → s.cancelled ≡ true
    → (happen_all (closing s) s
        ≡ some (record { cancelled = true; phases = all_done s.phases; joined = length s.phases }))
      × (all is_closing (closing s) ≡ true)
      × (length (closing s) ≡ work_left s)
stop-returns cfg es s h c =
    let o = happen_all-Orderly es (first_sched cfg) s h (first-Orderly cfg) in
    let n = length s.phases - s.joined in
    let whole : s.joined + n ≡ length s.phases = omega (arith, o.bound) in
    let same : s ≡ stopped s.phases s.joined =
      λ i. record { cancelled = c i; phases = s.phases; joined = s.joined } in
    (
      ap (happen_all (closing s)) same
          ∙ happen_all-append (closing_tasks 0 s.phases) (joins n) _ _
              (closing_tasks-done [] s.phases s.joined)
          ∙ joins-done n s.phases s.joined whole
          ∙ ap (λ k. some (stopped (all_done s.phases) k)) whole,
      closing_tasks-closing 0 s.phases (joins n) (joins-closing n),
      length-append (closing_tasks 0 s.phases) (joins n)
          ∙ omega (arith, length-closing_tasks 0 s.phases, length-joins n),
    )
