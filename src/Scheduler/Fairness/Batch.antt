-- ===== src/Scheduler/Fairness/Batch.antt =====
-- What `select_fair_batch` promises.
use trail_signal_os.Prelude.{
  ℕ, zero, suc, ◌+◌, ◌≤◌, ◌<◌, ◌≡◌, refl, ap, ◌∙◌, sym, Bool, true, false, ◌||◌, some, List, [],
  ◌∷◌, ◌==◌, if◌then◌else◌, length, any, arith, Bool-cases, inl, inr, count_where, sort,
  insert_sorted,
}
use trail_signal_os.Scheduler.Fairness.{
  AdmissionCandidate, PollWeights, poll_batch_weight, JobQueue, created_first, add_candidate, fill,
  has_work, max_of, fair_fuel, select_fair_batch,
}
use trail_signal_os.Scheduler.Fairness.Rounds.{queued, waiting, is_job}
use trail_signal_os.Scheduler.Fairness.Progress.{IsFair, front-le, measure}
use trail_signal_os.Scheduler.Fairness.Loop.{fair_loop-Ends, count_where-append}

-- A weight that is not positive would let a job wait for ever.
abbrev pub IsPositive : PollWeights → Type 0
IsPositive w = (priority : ℕ) → 1 ≤ poll_batch_weight w priority

abbrev one_of : (AdmissionCandidate → Bool) → AdmissionCandidate → ℕ
one_of p c = if p c then 1 else 0

count_where-insert :
    (p : AdmissionCandidate → Bool) (c : AdmissionCandidate) (cs : List AdmissionCandidate)
    → count_where p (insert_sorted created_first c cs) ≡ one_of p c + count_where p cs
count_where-insert p c [] = ground arith
count_where-insert p c (d ∷ ds) = elim (Bool-cases (created_first c d)) [
  | inl e ↦ rw e (ground arith)
  | inr e ↦ rw e (ground (arith, count_where-insert p c ds))
]

count_where-sort :
    (p : AdmissionCandidate → Bool) (cs : List AdmissionCandidate)
    → count_where p (sort created_first cs) ≡ count_where p cs
count_where-sort p [] = refl
count_where-sort p (c ∷ cs) =
    ground (arith, count_where-insert p c (sort created_first cs), count_where-sort p cs)

queued-add :
    (p : AdmissionCandidate → Bool) (w : PollWeights) (c : AdmissionCandidate) (qs : List JobQueue)
    → queued p (add_candidate w c qs) ≡ queued p qs + one_of p c
queued-add p w c [] = ground arith
queued-add p w c (q ∷ qs) =
    ground (arith, queued-add p w c qs, count_where-append p q.queue (c ∷ []))

queued-fill :
    (p : AdmissionCandidate → Bool) (w : PollWeights) (cs : List AdmissionCandidate)
    (qs : List JobQueue)
    → queued p (fill w cs qs) ≡ queued p qs + count_where p cs
queued-fill p w [] qs = omega arith
queued-fill p w (c ∷ cs) qs =
    ground (arith, queued-fill p w cs (add_candidate w c qs), queued-add p w c qs)

is_job-add :
    (id : ℕ) (w : PollWeights) (c : AdmissionCandidate) (qs : List JobQueue)
    → any (is_job id) (add_candidate w c qs) ≡ (any (is_job id) qs || c.job_id == id)
is_job-add id w c [] = ground arith
is_job-add id w c (q ∷ qs) = ground (arith, is_job-add id w c qs)

add-IsFair :
    (w : PollWeights) (c : AdmissionCandidate) (qs : List JobQueue)
    → IsPositive w
    → IsFair qs
    → IsFair (add_candidate w c qs)
add-IsFair w c [] pw h = record { unique = (refl, tt); weights = (pw c.priority, tt) }
add-IsFair w c (q ∷ qs) pw h =
    let rest = add-IsFair w c qs pw (record { unique = h.unique.1; weights = h.weights.1 }) in
    elim (Bool-cases (q.job_id == c.job_id)) [
      | inl e ↦ rw e (record { unique = h.unique; weights = (pw c.priority, h.weights.1) })
      | inr e ↦ rw e (record {
        unique = (ground (arith, is_job-add q.job_id w c qs, h.unique.0), rest.unique);
        weights = (h.weights.0, rest.weights);
      })
    ]

fill-IsFair :
    (w : PollWeights) (cs : List AdmissionCandidate) (qs : List JobQueue)
    → IsPositive w
    → IsFair qs
    → IsFair (fill w cs qs)
fill-IsFair w [] qs pw h = h
fill-IsFair w (c ∷ cs) qs pw h = fill-IsFair w cs (add_candidate w c qs) pw (add-IsFair w c qs pw h)

-- Every candidate.
abbrev always : AdmissionCandidate → Bool
always c = true

count_always : (cs : List AdmissionCandidate) → count_where always cs ≡ length cs
count_always [] = refl
count_always (c ∷ cs) = ap suc (count_always cs)

queued-always : (qs : List JobQueue) → queued always qs ≡ waiting qs
queued-always [] = refl
queued-always (q ∷ qs) = omega (arith, count_always q.queue, queued-always qs)

count_where-le :
    (p : AdmissionCandidate → Bool) (cs : List AdmissionCandidate) → count_where p cs ≤ length cs
count_where-le p [] = omega arith
count_where-le p (c ∷ cs) = ground (arith, count_where-le p cs)

queued-le : (p : AdmissionCandidate → Bool) (qs : List JobQueue) → queued p qs ≤ waiting qs
queued-le p [] = omega arith
queued-le p (q ∷ qs) = omega (arith, count_where-le p q.queue, queued-le p qs)

idle_waiting : (qs : List JobQueue) → any has_work qs ≡ false → waiting qs ≡ 0
idle_waiting [] e = refl
idle_waiting (q ∷ qs) e = ground (arith, idle_waiting qs)

queued-batch :
    (p : AdmissionCandidate → Bool) (w : PollWeights) (cs : List AdmissionCandidate)
    → queued p (fill w (sort created_first cs) []) ≡ count_where p cs
queued-batch p w cs =
    omega (arith, queued-fill p w (sort created_first cs) [], count_where-sort p cs)

-- Under positive weights, the selection of a batch is found whatever the candidates are, has at
-- most as many entries as the limit, holds no candidate more often than it was given, and holds
-- every candidate if the limit allows.
pub select_fair_batch_lem :
    (w : PollWeights) (limit : ℕ) (cs : List AdmissionCandidate)
    → IsPositive w
    → (selected : List AdmissionCandidate) × (select_fair_batch w limit cs ≡ some selected)
      × (length selected ≤ limit)
      × ((p : AdmissionCandidate → Bool) → count_where p selected ≤ count_where p cs)
      × (length cs ≤ limit
          → (p : AdmissionCandidate → Bool) → count_where p selected ≡ count_where p cs)
unfolding select_fair_batch
select_fair_batch_lem w zero [] pw = ([], refl, omega arith, λ p. omega arith, λ h p. refl)
select_fair_batch_lem w zero (c ∷ cs) pw =
    ([], refl, omega arith, λ p. omega arith, λ h p. absurd (omega arith))
select_fair_batch_lem w (suc limit) [] pw = ([], refl, omega arith, λ p. omega arith, λ h p. refl)
select_fair_batch_lem w (suc limit) (c ∷ cs) pw =
    let all_cs = c ∷ cs in
    let qs = fill w (sort created_first all_cs) [] in
    let fair : IsFair qs =
      fill-IsFair w (sort created_first all_cs) [] pw (record { unique = tt; weights = tt }) in
    let counts = λ (p : AdmissionCandidate → Bool). queued-batch p w all_cs in
    let size : waiting qs ≡ length all_cs =
      sym (queued-always qs) ∙ (counts always ∙ count_always all_cs) in
    let enough : measure (max_of qs) qs < fair_fuel (max_of qs) all_cs =
      rw size (omega (arith, front-le (max_of qs) qs)) in
    let (selected, e, ends) =
      fair_loop-Ends (fair_fuel (max_of qs) all_cs) (max_of qs) (suc limit) qs [] fair enough in
    (
      selected,
      e,
      ends.bounded (omega arith),
      λ p. omega (arith, ends.conserved p, counts p),
      λ h p.
          let none_left : waiting ends.rest ≡ 0 = elim ends.finished [
            | inl idle ↦ idle_waiting ends.rest idle
            | inr full ↦ omega (
              arith,
              full,
              ends.conserved always,
              counts always,
              queued-always ends.rest,
              count_always selected,
              count_always all_cs,
            )
          ] in
          omega (arith, ends.conserved p, counts p, queued-le p ends.rest, none_left),
    )
