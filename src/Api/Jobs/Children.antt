-- ===== src/Api/Jobs/Children.antt =====
-- control/api/routes_jobs.py, `expand_dossier_job`: the jobs that it makes, and a second call.
use mathlib.Core.List.{append_assoc, append-nil}
use trail_signal_os.Prelude.{
  ℕ, ◌≤◌, ◌≡◌, refl, sym, ap, ◌∙◌, Bool, true, false, ◌||◌, Option, none, some, List, [], ◌∷◌, ◌++◌,
  any, select, first, sort, length, length-sort, length-select, count_where, inl, inr, Bool-cases,
  arith,
}
use trail_signal_os.Guards.{ok}
use trail_signal_os.Graph.Outcomes.{Ensures, returned, failed, bind, Ensures-ok, Ensures-map}
use trail_signal_os.Api.Jobs.{
  ResearchJob, JobDb, planning, Settings, Expansion, has_job_id, is_child_of, child_order,
  is_dossier, is_nil, fetch_job, fetch_children, insert_research_job, insert_jobs, expansion_jobs,
  set_status, expand_row, expand_dossier_job,
}

insert_jobs_lem :
    (now : ℕ) (js : List ResearchJob) (db : JobDb)
    → Ensures (λ after. after.jobs ≡ db.jobs ++ js) (insert_jobs now js db)
unfolding insert_jobs
insert_jobs_lem now [] db = returned (sym (append-nil db.jobs))
insert_jobs_lem now (j ∷ js) db = bind (insert_research_job now j db) _ (λ larger e.
    let one : larger.jobs ≡ db.jobs ++ j ∷ [] = ground (arith, e) in
    Ensures-map (λ after h. h ∙ (ap (λ l. l ++ js) one ∙ append_assoc db.jobs (j ∷ []) js))
      (insert_jobs_lem now js larger))

find-append :
    (id : ℕ) (js ks : List ResearchJob) {j : ResearchJob}
    → first (select (has_job_id id) js) ≡ some j
    → first (select (has_job_id id) (js ++ ks)) ≡ some j
find-append id [] ks {j} e = cc
find-append id (i ∷ js) ks {j} e = ground (arith, e, find-append id js ks {j = j})

find-planned :
    (id now : ℕ) (jobs : List ResearchJob) {j : ResearchJob}
    → first (select (has_job_id id) jobs) ≡ some j
    → first (
        select
          (has_job_id id)
          (set_status now planning id (record { jobs = jobs; edges = [] })).jobs)
      ≡ some (record j { status = planning; updated_at = now })
find-planned id now [] {j} e = cc
find-planned id now (i ∷ jobs) {j} e = ground (arith, e, find-planned id now jobs {j = j})

any-planned :
    (id now : ℕ) (jobs : List ResearchJob)
    → any (is_child_of id) (set_status now planning id (record { jobs = jobs; edges = [] })).jobs
      ≡ any (is_child_of id) jobs
any-planned id now [] = refl
any-planned id now (i ∷ jobs) = ground (arith, any-planned id now jobs)

any-append :
    (p : ResearchJob → Bool) (xs ys : List ResearchJob) → any p (xs ++ ys) ≡ (any p xs || any p ys)
any-append p [] ys = refl
any-append p (x ∷ xs) ys = ground (arith, any-append p xs ys)

any-count :
    (p : ResearchJob → Bool) (xs : List ResearchJob) → any p xs ≡ true → 1 ≤ count_where p xs
any-count p [] h = absurd (ground arith)
any-count p (x ∷ xs) h = ground (arith, any-count p xs)

nonempty : (xs : List ResearchJob) → 1 ≤ length xs → is_nil xs ≡ false
nonempty [] h = absurd (omega arith)
nonempty (x ∷ xs) h = refl

has_children :
    (db : JobDb) (id : ℕ)
    → any (is_child_of id) db.jobs ≡ true
    → is_nil (fetch_children db id) ≡ false
unfolding fetch_children
has_children db id h = nonempty (sort child_order (select (is_child_of id) db.jobs)) (
    omega (
      arith,
      length-sort child_order (select (is_child_of id) db.jobs),
      length-select (is_child_of id) db.jobs,
      any-count (is_child_of id) db.jobs h,
    ))

find-id :
    (id : ℕ) (js : List ResearchJob) {j : ResearchJob}
    → first (select (has_job_id id) js) ≡ some j
    → j.job_id ≡ id
find-id id [] {j} e = cc
find-id id (i ∷ js) {j} e = ground (arith, find-id id js {j = j})

-- A dossier with children.
abbrev IsExpanded : ℕ → JobDb → Type 0
IsExpanded id db =
    (j : ResearchJob) × (fetch_job db id ≡ some j)
    × (is_dossier j.job_kind ≡ true)
    × (is_nil (fetch_children db id) ≡ false)

expand_again :
    (s : Settings) (now id : ℕ) (source_classes : List ℕ) (db : JobDb)
    → IsExpanded id db
    → expand_dossier_job s now id source_classes db
      ≡ ok (record { job_id = id; expanded = false; children = fetch_children db id }, db)
unfolding expand_dossier_job
expand_again s now id source_classes db (j, found, kind, children) = rw (found, kind, children) refl

expansion_has_child :
    (s : Settings) (now : ℕ) (parent : ResearchJob) (classes : List ℕ)
    → any (is_child_of parent.job_id) (expansion_jobs s now parent classes) ≡ true
expansion_has_child s now parent [] = ground arith
expansion_has_child s now parent (c ∷ cs) = ground arith

inserted_children :
    (s : Settings) (now id : ℕ) (parent : ResearchJob) (source_classes : List ℕ) (db larger : JobDb)
    → fetch_job db id ≡ some parent
    → is_dossier parent.job_kind ≡ true
    → larger.jobs ≡ db.jobs ++ expansion_jobs s now parent source_classes
    → IsExpanded id (set_status now planning id larger)
inserted_children s now id parent source_classes db larger found kind grown =
    let js = expansion_jobs s now parent source_classes in
    let same = find-id id db.jobs {j = parent} found in
    let row : first (select (has_job_id id) larger.jobs) ≡ some parent =
      rw grown (find-append id db.jobs js {j = parent} found) in
    let child : any (is_child_of id) larger.jobs ≡ true =
      rw (grown, ← same)
        (any-append (is_child_of parent.job_id) db.jobs js
          ∙ ground (arith, expansion_has_child s now parent source_classes)) in
    (
      record parent { status = planning; updated_at = now },
      find-planned id now larger.jobs {j = parent} row,
      kind,
      has_children (set_status now planning id larger) id (any-planned id now larger.jobs ∙ child),
    )

expand_row-IsExpanded :
    (s : Settings) (now id : ℕ) (source_classes : List ℕ) (db : JobDb) (o : Option ResearchJob)
    → fetch_job db id ≡ o
    → Ensures (λ both. IsExpanded id both.1) (expand_row s now id source_classes db o)
expand_row-IsExpanded s now id source_classes db none e = failed
expand_row-IsExpanded s now id source_classes db (some parent) e =
    elim (Bool-cases (is_dossier parent.job_kind)) [
      | inr no_dossier ↦ rw no_dossier failed
      | inl kind ↦ elim (Bool-cases (is_nil (fetch_children db id))) [
        | inr children ↦ rw (kind, children) (returned (parent, e, kind, children))
        | inl childless ↦
            rw (kind, childless)
              (bind (insert_jobs now (expansion_jobs s now parent source_classes) db) _
                (λ larger done. returned (
                  inserted_children s now id parent source_classes db larger e kind (
                    Ensures-ok (insert_jobs_lem now (expansion_jobs s now parent source_classes) db)
                      done))))
      ]
    ]

expand-IsExpanded :
    (s : Settings) (now id : ℕ) (source_classes : List ℕ) (db : JobDb)
    → Ensures (λ both. IsExpanded id both.1) (expand_dossier_job s now id source_classes db)
unfolding expand_dossier_job
expand-IsExpanded s now id source_classes db =
    expand_row-IsExpanded s now id source_classes db (fetch_job db id) refl

-- After a successful expansion, a second one, at whatever time and with whatever source classes,
-- makes nothing: it returns the children that the table holds and leaves the database as it is.
pub expand-expand :
    (s : Settings) (now id later : ℕ) (source_classes source_classes' : List ℕ) (db after : JobDb)
    (x : Expansion)
    → expand_dossier_job s now id source_classes db ≡ ok (x, after)
    → expand_dossier_job s later id source_classes' after
      ≡ ok (record { job_id = id; expanded = false; children = fetch_children after id }, after)
expand-expand s now id later source_classes source_classes' db after x done =
    expand_again s later id source_classes' after (
      Ensures-ok {P = λ both. IsExpanded id both.1} (expand-IsExpanded s now id source_classes db)
        done)
