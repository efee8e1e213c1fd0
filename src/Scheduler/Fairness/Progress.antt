-- ===== src/Scheduler/Fairness/Progress.antt =====
-- Every round of the fair selection gets on: it serves a candidate, or a job comes nearer to its
-- turn.
use trail_signal_os.Prelude.{
  ℕ, suc, ◌+◌, ◌*◌, ◌-◌, ◌≤◌, ◌<◌, ◌≡◌, ◌≢◌, refl, ap, ◌∙◌, sym, true, false, Option, none, some,
  List, [], ◌∷◌, ◌==◌, if◌then◌else◌, first, any, map, arith, Bool-cases, Option-cases, inl, inr,
  ◌⊎◌, All, ==→eq,
}
use mathlib.Core.Path.{subst}
use trail_signal_os.Scheduler.Fairness.{
  AdmissionCandidate, JobQueue, has_items, has_work, credit, is_eligible, goes_before, better, pick,
  pop, serve, fair_round,
}
use trail_signal_os.Scheduler.Fairness.Rounds.{
  waiting, is_job, HasUniqueJobs, ones, waiting-pop, waiting-credit, credit-HasUniqueJobs,
  pop-HasUniqueJobs,
}

abbrev Holds : JobQueue → List JobQueue → Type 0
Holds q [] = ⊥
Holds q (r ∷ rs) = (q ≡ r) ⊎ Holds q rs

better-some :
    (best : Option JobQueue) (r : JobQueue) {q : JobQueue}
    → better best r ≡ some q
    → (best ≡ some q) ⊎ (r ≡ q)
better-some none r e = inr cc
better-some (some b) r e = elim (Bool-cases (goes_before r b)) [
  | inl first_r ↦ inr (let same = rw first_r at e in cc)
  | inr first_b ↦ inl (rw first_b at e)
]

better_ne_none : (best : Option JobQueue) (r : JobQueue) → better best r ≢ none
better_ne_none none r e = cc
better_ne_none (some b) r e = ground arith

step_some :
    (m : ℕ) (best : Option JobQueue) (r : JobQueue) (rs : List JobQueue) {q : JobQueue}
    → (if is_eligible m r then better best r else best) ≡ some q
    → (best ≡ some q) ⊎ (Holds q (r ∷ rs) × (is_eligible m q ≡ true))
step_some m best r rs {q} b = elim (Bool-cases (is_eligible m r)) [
  | inl el ↦ elim (better-some best r {q = q} (rw el at b)) [
    | inl old ↦ inl old
    | inr new ↦ inr (inl (sym new), subst (λ x. is_eligible m x ≡ true) new el)
  ]
  | inr no_turn ↦ inl (rw no_turn at b)
]

pick-some :
    (m : ℕ) (best : Option JobQueue) (qs : List JobQueue) {q : JobQueue}
    → pick m best qs ≡ some q
    → (best ≡ some q) ⊎ (Holds q qs × (is_eligible m q ≡ true))
pick-some m best [] {q} e = inl e
pick-some m best (r ∷ rs) {q} e =
    elim (pick-some m (if is_eligible m r then better best r else best) rs {q = q} e) [
      | inl b ↦ step_some m best r rs b
      | inr (h, el) ↦ inr (inr h, el)
    ]

pick-none :
    (m : ℕ) (best : Option JobQueue) (qs : List JobQueue)
    → pick m best qs ≡ none
    → (best ≡ none) × (any (is_eligible m) qs ≡ false)
pick-none m best [] e = (e, refl)
pick-none m best (r ∷ rs) e =
    let (nothing, none_left) = pick-none m (if is_eligible m r then better best r else best) rs e in
    elim (Bool-cases (is_eligible m r)) [
      | inl el ↦ absurd (better_ne_none best r (rw el at nothing))
      | inr no_turn ↦ (rw no_turn at nothing, rw no_turn none_left)
    ]

-- The popped candidate is the first of the picked queue.
Holds-job : (q : JobQueue) (qs : List JobQueue) → Holds q qs → any (is_job q.job_id) qs ≡ true
Holds-job q [] h = absurd h
Holds-job q (r ∷ rs) (inl e) = ground arith
Holds-job q (r ∷ rs) (inr h) = ground (arith, Holds-job q rs h)

pop-Holds :
    (m : ℕ) (q : JobQueue) (qs : List JobQueue)
    → HasUniqueJobs qs
    → Holds q qs
    → (pop m q.job_id qs).0 ≡ first q.queue
pop-Holds m q [] u h = absurd h
pop-Holds m q (r ∷ rs) u (inl e) = ground arith
pop-Holds m q (r ∷ rs) u (inr h) = elim (Bool-cases (r.job_id == q.job_id)) [
  | inl same ↦
      let twice : any (is_job r.job_id) rs ≡ true =
        subst (λ j. any (is_job j) rs ≡ true) (sym (==→eq r.job_id q.job_id same))
          (Holds-job q rs h) in
      absurd (ground arith)
  | inr other ↦ rw other (pop-Holds m q rs u.1 h)
]

-- How far the first job with work is from its turn.
abbrev pub front : ℕ → List JobQueue → ℕ
front m [] = 0
front m (q ∷ qs) = if has_work q then m - q.credits else front m qs

pub front-le : (m : ℕ) (qs : List JobQueue) → front m qs ≤ m
front-le m [] = omega arith
front-le m (q ∷ qs) = ground (arith, front-le m qs)

abbrev pub HasWeights : List JobQueue → Type 0
HasWeights = All (λ (q : JobQueue). 1 ≤ q.weight)

front-credit :
    (m : ℕ) (qs : List JobQueue)
    → HasWeights qs
    → any has_work qs ≡ true
    → any (is_eligible m) (map credit qs) ≡ false
    → front m (map credit qs) < front m qs
front-credit m [] w h n = cc
front-credit m (q ∷ qs) w h n = ground (arith, front-credit m qs w.1)

credit-HasWeights : (qs : List JobQueue) → HasWeights qs → HasWeights (map credit qs)
credit-HasWeights [] w = tt
credit-HasWeights (q ∷ qs) w = (ground arith, credit-HasWeights qs w.1)

pop-HasWeights : (m id : ℕ) (qs : List JobQueue) → HasWeights qs → HasWeights (pop m id qs).1
pop-HasWeights m id [] w = tt
pop-HasWeights m id (q ∷ qs) w = elim (Bool-cases (q.job_id == id)) [
  | inl e ↦ rw e w
  | inr e ↦ rw e (w.0, pop-HasWeights m id qs w.1)
]

first_has_items :
    (cs : List AdmissionCandidate)
    → has_items cs ≡ true
    → (c : AdmissionCandidate) × (first cs ≡ some c)
first_has_items [] e = cc
first_has_items (c ∷ cs) e = (c, refl)

-- What a round keeps, and the number that it lowers.
pub record IsFair (qs : List JobQueue) : Type 0 where
  pub unique : HasUniqueJobs qs
  pub weights : HasWeights qs

abbrev pub measure : ℕ → List JobQueue → ℕ
measure m qs = waiting qs * suc m + front m qs

serve-IsFair :
    (m : ℕ) (picked : Option JobQueue) (qs : List JobQueue)
    → IsFair qs
    → IsFair (serve m picked qs).1
serve-IsFair m none qs h = h
serve-IsFair m (some q) qs h = record {
  unique = pop-HasUniqueJobs m q.job_id qs h.unique;
  weights = pop-HasWeights m q.job_id qs h.weights;
}

pub fair_round-IsFair : (m : ℕ) (qs : List JobQueue) → IsFair qs → IsFair (fair_round m qs).1
unfolding fair_round
fair_round-IsFair m qs h =
    serve-IsFair m (pick m none (map credit qs)) (map credit qs) (record {
      unique = credit-HasUniqueJobs qs h.unique;
      weights = credit-HasWeights qs h.weights;
    })

served_measure :
    (m : ℕ) (q : JobQueue) (qs : List JobQueue)
    → HasUniqueJobs qs
    → Holds q qs
    → is_eligible m q ≡ true
    → measure m (pop m q.job_id qs).1 < waiting qs * suc m
served_measure m q qs u h el =
    let (c, e) = first_has_items q.queue (ground arith) in
    let one : ones (pop m q.job_id qs).0 ≡ 1 = ap ones (pop-Holds m q qs u h ∙ e) in
    let less : waiting qs ≡ waiting (pop m q.job_id qs).1 + 1 =
      sym (waiting-pop m q.job_id qs) ∙ ap (λ (n : ℕ). waiting (pop m q.job_id qs).1 + n) one in
    rw less (omega (arith, front-le m (pop m q.job_id qs).1))

-- While a job has work, a round lowers the measure.
pub fair_round_progress :
    (m : ℕ) (qs : List JobQueue)
    → IsFair qs
    → any has_work qs ≡ true
    → measure m (fair_round m qs).1 < measure m qs
unfolding fair_round
fair_round_progress m qs h work = elim (Option-cases (pick m none (map credit qs))) [
  | inl idle ↦
      let less = front-credit m qs h.weights work (pick-none m none (map credit qs) idle).1 in
      rw idle (rw (waiting-credit qs) (omega (arith, less)))
  | inr (q, picked) ↦ elim (pick-some m none (map credit qs) {q = q} picked) [
    | inl e ↦ absurd (ground arith)
    | inr (here, el) ↦
        let less = served_measure m q (map credit qs) (credit-HasUniqueJobs qs h.unique) here el in
        rw picked
          (omega (arith, less, waiting-credit qs, ap (λ (n : ℕ). n * suc m) (waiting-credit qs)))
  ]
]
