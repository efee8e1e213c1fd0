-- ===== src/Scheduler/Fairness/Loop.antt =====
-- The loop of the fair selection: it ends, and what it selects is what the queues lose.
use trail_signal_os.Prelude.{
  ℕ, zero, suc, ◌+◌, ◌≤◌, ◌<◌, ◌≡◌, refl, ◌∙◌, Bool, true, false, ◌&&◌, Option, none, some, List,
  [], ◌∷◌, ◌++◌, ltb, length, any, map, arith, Bool-cases, inl, inr, ◌⊎◌, count_where,
  length-append,
}
use trail_signal_os.Scheduler.Fairness.{
  AdmissionCandidate, JobQueue, has_work, credit, pick, serve, fair_round, fair_loop, append_option,
}
use trail_signal_os.Scheduler.Fairness.Rounds.{queued, one_if, queued-pop, queued-credit}
use trail_signal_os.Scheduler.Fairness.Progress.{
  IsFair, measure, fair_round-IsFair, fair_round_progress,
}

queued-serve :
    (p : AdmissionCandidate → Bool) (m : ℕ) (picked : Option JobQueue) (qs : List JobQueue)
    → queued p (serve m picked qs).1 + one_if p (serve m picked qs).0 ≡ queued p qs
queued-serve p m none qs = omega arith
queued-serve p m (some q) qs = queued-pop p m q.job_id qs

queued-fair_round :
    (p : AdmissionCandidate → Bool) (m : ℕ) (qs : List JobQueue)
    → queued p (fair_round m qs).1 + one_if p (fair_round m qs).0 ≡ queued p qs
unfolding fair_round
queued-fair_round p m qs =
    queued-serve p m (pick m none (map credit qs)) (map credit qs) ∙ queued-credit p qs

pub count_where-append :
    (p : AdmissionCandidate → Bool) (xs ys : List AdmissionCandidate)
    → count_where p (xs ++ ys) ≡ count_where p xs + count_where p ys
count_where-append p [] ys = omega arith
count_where-append p (x ∷ xs) ys = ground (arith, count_where-append p xs ys)

count_where-append_option :
    (p : AdmissionCandidate → Bool) (xs : List AdmissionCandidate) (o : Option AdmissionCandidate)
    → count_where p (append_option xs o) ≡ count_where p xs + one_if p o
count_where-append_option p xs none = omega arith
count_where-append_option p xs (some c) = ground (arith, count_where-append p xs (c ∷ []))

length-append_option :
    (xs : List AdmissionCandidate) (o : Option AdmissionCandidate)
    → length (append_option xs o) ≤ suc (length xs)
length-append_option xs none = omega arith
length-append_option xs (some c) = omega (arith, length-append xs (c ∷ []))

-- How a run of the loop ends: with some queues left over.
pub record Ends (limit : ℕ) (qs : List JobQueue) (before after : List AdmissionCandidate)
    : Type 0 where
  pub rest : List JobQueue
  pub conserved :
      (p : AdmissionCandidate → Bool)
      → count_where p after + queued p rest ≡ count_where p before + queued p qs
  pub bounded : length before ≤ limit → length after ≤ limit
  pub finished : (any has_work rest ≡ false) ⊎ (limit ≤ length after)

loop_goes :
    (fuel m limit : ℕ) (qs : List JobQueue) (selected : List AdmissionCandidate)
    → (ltb (length selected) limit && any has_work qs) ≡ true
    → fair_loop (suc fuel) m limit qs selected
      ≡ fair_loop fuel m limit (fair_round m qs).1 (append_option selected (fair_round m qs).0)
unfolding fair_loop
loop_goes fuel m limit qs selected go = rw (go, fair_loop) refl

loop_stops :
    (fuel m limit : ℕ) (qs : List JobQueue) (selected : List AdmissionCandidate)
    → (ltb (length selected) limit && any has_work qs) ≡ false
    → fair_loop (suc fuel) m limit qs selected ≡ some selected
unfolding fair_loop
loop_stops fuel m limit qs selected stop = rw (stop, fair_loop) refl

-- With more fuel than the measure the loop returns, and ends so.
pub fair_loop-Ends :
    (fuel m limit : ℕ) (qs : List JobQueue) (selected : List AdmissionCandidate)
    → IsFair qs
    → measure m qs < fuel
    → (result : List AdmissionCandidate) × (fair_loop fuel m limit qs selected ≡ some result)
      × Ends limit qs selected result
fair_loop-Ends zero m limit qs selected h enough = absurd (omega arith)
fair_loop-Ends (suc fuel) m limit qs selected h enough =
    elim (Bool-cases (ltb (length selected) limit && any has_work qs)) [
      | inl go ↦
          let next = (fair_round m qs).1 in
          let served = (fair_round m qs).0 in
          let less = fair_round_progress m qs h (ground arith) in
          let (result, e, ends) =
            fair_loop-Ends fuel m limit next (append_option selected served)
              (fair_round-IsFair m qs h) (omega (arith, less)) in
          (
            result,
            loop_goes fuel m limit qs selected go ∙ e,
            record {
              rest = ends.rest;
              conserved = λ p. omega (
                arith,
                ends.conserved p,
                count_where-append_option p selected served,
                queued-fair_round p m qs,
              );
              bounded = λ b. ends.bounded (ground (arith, length-append_option selected served));
              finished = ends.finished;
            },
          )
      | inr stop ↦ (
        selected,
        loop_stops fuel m limit qs selected stop,
        record { rest = qs; conserved = λ p. refl; bounded = λ b. b; finished = ground arith },
      )
    ]
