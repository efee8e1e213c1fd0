-- ===== src/Scheduler/Fairness/Rounds.antt =====
-- One round of the fair selection: what it takes out of the queues, and that it gets on.
use trail_signal_os.Prelude.{
  ℕ, ◌+◌, ◌≡◌, refl, ◌∙◌, Bool, false, Option, none, some, List, [], ◌∷◌, ◌==◌, if◌then◌else◌,
  length, any, map, count_where, arith, Bool-cases, inl, inr,
}
use trail_signal_os.Scheduler.Fairness.{AdmissionCandidate, JobQueue, credit, pop}

-- The candidates of the queues that pass a test, and all of them.
abbrev pub queued : (AdmissionCandidate → Bool) → List JobQueue → ℕ
queued p [] = 0
queued p (q ∷ qs) = count_where p q.queue + queued p qs

abbrev pub waiting : List JobQueue → ℕ
waiting [] = 0
waiting (q ∷ qs) = length q.queue + waiting qs

abbrev pub is_job : ℕ → JobQueue → Bool
is_job id q = q.job_id == id

-- A dict has no key twice.
abbrev pub HasUniqueJobs : List JobQueue → Type 0
HasUniqueJobs [] = Unit
HasUniqueJobs (q ∷ qs) = (any (is_job q.job_id) qs ≡ false) × HasUniqueJobs qs

abbrev pub one_if : (AdmissionCandidate → Bool) → Option AdmissionCandidate → ℕ
one_if p none = 0
one_if p (some c) = if p c then 1 else 0

abbrev pub ones : Option AdmissionCandidate → ℕ
ones none = 0
ones (some c) = 1

-- What is popped is what the queues lose.
pub queued-pop :
    (p : AdmissionCandidate → Bool) (m id : ℕ) (qs : List JobQueue)
    → queued p (pop m id qs).1 + one_if p (pop m id qs).0 ≡ queued p qs
queued-pop p m id [] = refl
queued-pop p m id (q ∷ qs) = ground (arith, queued-pop p m id qs)

pub waiting-pop :
    (m id : ℕ) (qs : List JobQueue) → waiting (pop m id qs).1 + ones (pop m id qs).0 ≡ waiting qs
waiting-pop m id [] = refl
waiting-pop m id (q ∷ qs) = ground (arith, waiting-pop m id qs)

pub queued-credit :
    (p : AdmissionCandidate → Bool) (qs : List JobQueue) → queued p (map credit qs) ≡ queued p qs
queued-credit p [] = refl
queued-credit p (q ∷ qs) = ground (arith, queued-credit p qs)

pub waiting-credit : (qs : List JobQueue) → waiting (map credit qs) ≡ waiting qs
waiting-credit [] = refl
waiting-credit (q ∷ qs) = ground (arith, waiting-credit qs)

pub is_job-credit :
    (id : ℕ) (qs : List JobQueue) → any (is_job id) (map credit qs) ≡ any (is_job id) qs
is_job-credit id [] = refl
is_job-credit id (q ∷ qs) = ground (arith, is_job-credit id qs)

pub is_job-pop :
    (j m id : ℕ) (qs : List JobQueue) → any (is_job j) (pop m id qs).1 ≡ any (is_job j) qs
is_job-pop j m id [] = refl
is_job-pop j m id (q ∷ qs) = ground (arith, is_job-pop j m id qs)

pub credit-HasUniqueJobs : (qs : List JobQueue) → HasUniqueJobs qs → HasUniqueJobs (map credit qs)
credit-HasUniqueJobs [] h = tt
credit-HasUniqueJobs (q ∷ qs) h =
    (ground (arith, is_job-credit q.job_id qs), credit-HasUniqueJobs qs h.1)

pub pop-HasUniqueJobs :
    (m id : ℕ) (qs : List JobQueue) → HasUniqueJobs qs → HasUniqueJobs (pop m id qs).1
pop-HasUniqueJobs m id [] h = tt
pop-HasUniqueJobs m id (q ∷ qs) h = elim (Bool-cases (q.job_id == id)) [
  | inl e ↦ rw e h
  | inr e ↦ rw e (is_job-pop q.job_id m id qs ∙ h.0, pop-HasUniqueJobs m id qs h.1)
]
