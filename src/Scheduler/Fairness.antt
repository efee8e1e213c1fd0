-- ===== src/Scheduler/Fairness.antt =====
-- control/scheduler/fairness.py, and `poll_batch_weight` of settings.py. The weights of
-- config/queues.yaml are an argument. The four dicts of `select_fair_batch` have the same keys and
-- are one list here, in the order of the first insertion.
pub mod Rounds
pub mod Progress
pub mod Loop
pub mod Batch
use trail_signal_os.Prelude.{
  ℕ, zero, suc, ◌+◌, ◌*◌, ◌-◌, Bool, true, false, ◌&&◌, ◌||◌, not, Option, none, some, List, [],
  ◌∷◌, ◌++◌, ◌==◌, ltb, leb, if◌then◌else◌, length, first, any, sort, map,
}
use trail_signal_os.Store.Lanes.{Lane}

pub record AdmissionCandidate : Type 0 where
  pub task_id : ℕ
  pub job_id : ℕ
  pub lane : Lane
  pub priority : ℕ
  pub created_at : ℕ

-- `priorities.poll_batch_weights`; a tier that the file lacks is `none`.
pub record PollWeights : Type 0 where
  pub high : Option ℕ
  pub normal : Option ℕ
  pub bulk : Option ℕ

abbrev or_else : Option ℕ → ℕ → ℕ
or_else none d = d
or_else (some n) d = n

-- `_priority_to_tier` and `poll_batch_weight`
abbrev pub poll_batch_weight : PollWeights → ℕ → ℕ
poll_batch_weight w zero = or_else w.high (or_else w.normal 4)
poll_batch_weight w (suc zero) = or_else w.high (or_else w.normal 4)
poll_batch_weight w (suc (suc zero)) = or_else w.normal (or_else w.normal 4)
poll_batch_weight w (suc (suc (suc p))) = or_else w.bulk (or_else w.normal 4)

pub record JobQueue : Type 0 where
  pub job_id : ℕ
  pub queue : List AdmissionCandidate
  pub weight : ℕ
  pub priority : ℕ
  pub credits : ℕ

-- `(item.created_at, item.task_id)`
abbrev pub created_first : AdmissionCandidate → AdmissionCandidate → Bool
created_first a b =
    ltb a.created_at b.created_at || (a.created_at == b.created_at && leb a.task_id b.task_id)

-- One round of the loop that fills the dicts. The weight and the priority of a job are those of its
-- last candidate.
abbrev pub add_candidate : PollWeights → AdmissionCandidate → List JobQueue → List JobQueue
add_candidate w c [] =
    record {
      job_id = c.job_id;
      queue = c ∷ [];
      weight = poll_batch_weight w c.priority;
      priority = c.priority;
      credits = 0;
    }
    ∷ []
add_candidate w c (q ∷ qs) =
    if q.job_id == c.job_id
    then record q {
      queue = q.queue ++ c ∷ [];
      weight = poll_batch_weight w c.priority;
      priority = c.priority;
    }
      ∷ qs
    else q ∷ add_candidate w c qs

abbrev pub fill : PollWeights → List AdmissionCandidate → List JobQueue → List JobQueue
fill w [] qs = qs
fill w (c ∷ cs) qs = fill w cs (add_candidate w c qs)

-- `if by_job[job_id]`
abbrev pub has_items : List AdmissionCandidate → Bool
has_items [] = false
has_items (c ∷ cs) = true

abbrev pub has_work : JobQueue → Bool
has_work q = has_items q.queue

abbrev pub max_of : List JobQueue → ℕ
max_of [] = 0
max_of (q ∷ qs) = let m = max_of qs in if ltb m q.weight then q.weight else m

-- `credits[job_id] += job_weight[job_id]`
abbrev pub credit : JobQueue → JobQueue
credit q = if has_work q then record q { credits = q.credits + q.weight } else q

abbrev pub is_eligible : ℕ → JobQueue → Bool
is_eligible max_weight q = has_work q && leb max_weight q.credits

-- The order of `(-credits[jid], job_priority[jid], jid)`.
abbrev pub goes_before : JobQueue → JobQueue → Bool
goes_before a b =
    ltb b.credits a.credits
    || (a.credits == b.credits
        && (ltb a.priority b.priority || (a.priority == b.priority && ltb a.job_id b.job_id)))

abbrev pub better : Option JobQueue → JobQueue → Option JobQueue
better none q = some q
better (some best) q = if goes_before q best then some q else some best

-- `min(eligible, key=…)`, of none where no job is eligible.
abbrev pub pick : ℕ → Option JobQueue → List JobQueue → Option JobQueue
pick max_weight best [] = best
pick max_weight best (q ∷ qs) =
    pick max_weight (if is_eligible max_weight q then better best q else best) qs

-- `by_job[job_id].popleft()` and `credits[job_id] -= max_weight`
abbrev pub pop : ℕ → ℕ → List JobQueue → Option AdmissionCandidate × List JobQueue
pop max_weight job_id [] = (none, [])
pop max_weight job_id (q ∷ qs) =
    let (popped, rest) = pop max_weight job_id qs in
    if q.job_id == job_id
    then (
      first q.queue,
      record q { queue = pop_left q.queue; credits = q.credits - max_weight } ∷ qs,
    )
    else (popped, q ∷ rest)
  where
    pop_left : List AdmissionCandidate → List AdmissionCandidate
    pop_left [] = []
    pop_left (c ∷ cs) = cs

abbrev pub serve : ℕ → Option JobQueue → List JobQueue → Option AdmissionCandidate × List JobQueue
serve max_weight none qs = (none, qs)
serve max_weight (some q) qs = pop max_weight q.job_id qs

-- The body of the `while`: a candidate, or none where it says `continue`, and the queues after it.
unfoldable pub fair_round : ℕ → List JobQueue → Option AdmissionCandidate × List JobQueue
fair_round max_weight qs =
    let credited = map credit qs in serve max_weight (pick max_weight none credited) credited

abbrev pub append_option :
    List AdmissionCandidate → Option AdmissionCandidate → List AdmissionCandidate
append_option cs none = cs
append_option cs (some c) = cs ++ c ∷ []

-- The `while` on fuel; `none` means that the fuel ran out.
unfoldable pub fair_loop :
    ℕ → ℕ → ℕ → List JobQueue → List AdmissionCandidate → Option (List AdmissionCandidate)
unfolding fair_round
fair_loop zero max_weight limit qs selected = none
fair_loop (suc fuel) max_weight limit qs selected =
    elim (ltb (length selected) limit && any has_work qs) [
      | false ↦ some selected
      | true ↦
          fair_loop fuel max_weight limit (fair_round max_weight qs).1
            (append_option selected (fair_round max_weight qs).0)
    ]

-- Enough rounds for every candidate to be served.
abbrev pub fair_fuel : ℕ → List AdmissionCandidate → ℕ
fair_fuel max_weight candidates = suc (length candidates * suc max_weight + max_weight)

unfoldable pub select_fair_batch :
    PollWeights → ℕ → List AdmissionCandidate → Option (List AdmissionCandidate)
unfolding fair_loop
select_fair_batch w zero candidates = some []
select_fair_batch w (suc limit) [] = some []
select_fair_batch w (suc limit) (c ∷ cs) =
    let qs = fill w (sort created_first (c ∷ cs)) [] in
    fair_loop (fair_fuel (max_of qs) (c ∷ cs)) (max_of qs) (suc limit) qs []
