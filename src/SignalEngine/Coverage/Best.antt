-- ===== src/SignalEngine/Coverage/Best.antt =====
-- What a grid says of the signals that it was built from.
use trail_signal_os.Prelude.{
  ℕ, ◌≡◌, refl, ◌∙◌, sym, Bool, true, false, ◌&&◌, not, Option, none, some, List, [], ◌∷◌, ◌++◌,
  ◌==◌, ltb, leb, if◌then◌else◌, any, all, sort, arith, Bool-cases, Option-cases, inl, inr, ◌⊎◌,
}
use trail_signal_os.Guards.{coverage_error, ok, err}
use trail_signal_os.SignalEngine.Coverage.{
  SignalType, SourceTier, Signal, CoverageCell, CoverageGrid, same_key, get_cell, put_cell,
  new_cell, upserted, stored, upsert_signal, confidence_of, best_confidence, larger, supported_type,
  supported_tier, of_niche, upsert_all, build_grid_from_signals,
}

-- A signal for the cell of this key.
abbrev pub is_for : SignalType → SourceTier → Signal → Bool
is_for ty tier s = go s.source
  where
    go : Option SourceTier → Bool
    go none = false
    go (some t) = same_key ty tier s.signal_type t

-- The best confidence among the signals for a key, or 0.
abbrev pub best_of : SignalType → SourceTier → List Signal → ℕ
best_of ty tier [] = 0
best_of ty tier (s ∷ ss) =
    let rest = best_of ty tier ss in if is_for ty tier s then larger s.confidence rest else rest

get-put :
    (ty : SignalType) (tier : SourceTier) (c : CoverageCell) (cs : List CoverageCell)
    → get_cell ty tier (put_cell c cs)
      ≡ (if same_key ty tier c.signal_type c.source_tier then some c else get_cell ty tier cs)
get-put ty tier c [] = refl
get-put ty tier c (d ∷ ds) = ground (arith, get-put ty tier c ds)

get_cell-same_key :
    (ty ty' : SignalType) (tier tier' : SourceTier) (cs : List CoverageCell)
    → same_key ty tier ty' tier' ≡ true
    → get_cell ty tier cs ≡ get_cell ty' tier' cs
get_cell-same_key ty ty' tier tier' [] h = refl
get_cell-same_key ty ty' tier tier' (c ∷ cs) h =
    ground (arith, get_cell-same_key ty ty' tier tier' cs)

-- Either nothing is stored, and the signal is no better, or a cell of the signal's confidence.
upserted_cases :
    (s : Signal) (tier : SourceTier) (now : ℕ) (o : Option CoverageCell)
    → ((upserted s tier now o ≡ none) × (larger (confidence_of o) s.confidence ≡ confidence_of o))
      ⊎ ((ids : List ℕ) × (upserted s tier now o ≡ some (new_cell s tier ids now))
          × (larger (confidence_of o) s.confidence ≡ s.confidence))
upserted_cases s tier now none = inr (s.signal_id ∷ [], refl, ground arith)
upserted_cases s tier now (some c) = elim (Bool-cases (ltb c.best_confidence s.confidence)) [
  | inl better ↦ inr (s.signal_id ∷ [], rw better refl, rw better refl)
  | inr no_better ↦
      elim (Bool-cases (
        s.confidence == c.best_confidence
        && not (any (λ (id : ℕ). s.signal_id == id) c.contributing_signal_ids))) [
          | inl ties ↦ inr (
            sort leb (c.contributing_signal_ids ++ s.signal_id ∷ []),
            rw (no_better, ties) refl,
            ground arith,
          )
          | inr same ↦ inl (rw (no_better, same) refl, rw no_better refl)
        ]
]

best-stored :
    (ty : SignalType) (t : SourceTier) (s : Signal) (tier : SourceTier) (now : ℕ)
    (grid : CoverageGrid)
    → let after = (stored (upserted s tier now (get_cell s.signal_type tier grid.cells)) grid).1 in
      best_confidence ty t after ≡ (
        if same_key ty t s.signal_type tier
        then larger (best_confidence ty t grid) s.confidence
        else best_confidence ty t grid)
best-stored ty t s tier now grid =
    elim (upserted_cases s tier now (get_cell s.signal_type tier grid.cells)) [
      | inl (e, same) ↦ rw e (elim (Bool-cases (same_key ty t s.signal_type tier)) [
        | inl own ↦
            rw own (rw (get_cell-same_key ty s.signal_type t tier grid.cells own) (sym same))
        | inr other ↦ rw other refl
      ])
      | inr (ids, e, best) ↦
          rw (e, get-put ty t (new_cell s tier ids now) grid.cells)
            (elim (Bool-cases (same_key ty t s.signal_type tier)) [
              | inl own ↦
                  rw own (rw (get_cell-same_key ty s.signal_type t tier grid.cells own) (sym best))
              | inr other ↦ rw other refl
            ])
    ]

stored-niche :
    (o : Option CoverageCell) (grid : CoverageGrid) → (stored o grid).1.niche_id ≡ grid.niche_id
stored-niche none grid = refl
stored-niche (some c) grid = refl

-- A signal that a grid takes.
abbrev pub is_usable : Signal → Bool
is_usable s = go s.source
  where
    go : Option SourceTier → Bool
    go none = false
    go (some t) = supported_type s.signal_type && supported_tier t

abbrev pub is_accepted : ℕ → Signal → Bool
is_accepted niche s = of_niche niche s.niche_id && is_usable s

upsert_usable :
    (s : Signal) (now : ℕ) (grid : CoverageGrid)
    → is_usable s ≡ true
    → (b : Bool) × (after : CoverageGrid) × (upsert_signal s now grid ≡ ok (b, after))
      × (after.niche_id ≡ grid.niche_id)
      × ((ty : SignalType) (tier : SourceTier)
          → best_confidence ty tier after ≡ (
              if is_for ty tier s
              then larger (best_confidence ty tier grid) s.confidence
              else best_confidence ty tier grid))
unfolding upsert_signal
upsert_usable s now grid usable = elim (Option-cases s.source) [
  | inl missing ↦ absurd (ground arith)
  | inr (t, e) ↦
      let supported : supported_type s.signal_type && supported_tier t ≡ true = rw e at usable in
      let new = upserted s t now (get_cell s.signal_type t grid.cells) in
      (
        (stored new grid).0,
        (stored new grid).1,
        rw e (ground arith),
        stored-niche new grid,
        λ ty tier. rw e (best-stored ty tier s t now grid),
      )
]

upsert_unusable :
    (s : Signal) (now : ℕ) (grid : CoverageGrid)
    → is_usable s ≡ false
    → upsert_signal s now grid ≡ err coverage_error
unfolding upsert_signal
upsert_unusable s now grid unusable = ground arith

larger-best :
    (b : Bool) (a c rest : ℕ)
    → larger (if b then larger a c else a) rest ≡ larger a (if b then larger c rest else rest)
larger-best b a c rest = ground arith

upsert_all_cases :
    (ss : List Signal) (now : ℕ) (grid : CoverageGrid)
    → ((all (is_accepted grid.niche_id) ss ≡ true)
        × ((after : CoverageGrid) × (upsert_all ss now grid ≡ ok after)
            × ((ty : SignalType) (tier : SourceTier)
                → best_confidence ty tier after
                  ≡ larger (best_confidence ty tier grid) (best_of ty tier ss))))
      ⊎ ((all (is_accepted grid.niche_id) ss ≡ false)
          × (upsert_all ss now grid ≡ err coverage_error))
unfolding upsert_all
upsert_all_cases [] now grid = inl (refl, (grid, refl, λ ty tier. ground arith))
upsert_all_cases (s ∷ ss) now grid = elim (Bool-cases (of_niche grid.niche_id s.niche_id)) [
  | inr foreign ↦ inr (rw foreign refl, rw foreign refl)
  | inl own ↦ elim (Bool-cases (is_usable s)) [
    | inr unusable ↦
        inr (rw (own, unusable) refl, rw (own, upsert_unusable s now grid unusable) refl)
    | inl usable ↦
        let (b, mid, e, niche, bests) = upsert_usable s now grid usable in
        elim (upsert_all_cases ss now mid) [
          | inr (h, e') ↦ inr (rw (own, usable) (rw niche at h), rw (own, e, upsert_all) e')
          | inl (h, (after, e', bests')) ↦ inl (
            rw (own, usable) (rw niche at h),
            (
              after,
              rw (own, e, upsert_all) e',
              λ ty tier.
                  bests' ty tier
                  ∙ (rw (bests ty tier) (
                      larger-best (is_for ty tier s) (best_confidence ty tier grid) s.confidence
                        (best_of ty tier ss))),
            ),
          )
        ]
  ]
]

-- A grid is built exactly if every signal is of the niche and has a supported type and tier; a cell
-- then says the best confidence among the signals for it, or 0 where there are none.
pub build_grid_from_signals_lem :
    (niche : ℕ) (signals : List Signal) (now : ℕ)
    → ((all (is_accepted niche) signals ≡ true)
        × ((grid : CoverageGrid) × (build_grid_from_signals niche signals now ≡ ok grid)
            × ((ty : SignalType) (tier : SourceTier)
                → best_confidence ty tier grid ≡ best_of ty tier signals)))
      ⊎ ((all (is_accepted niche) signals ≡ false)
          × (build_grid_from_signals niche signals now ≡ err coverage_error))
unfolding build_grid_from_signals
build_grid_from_signals_lem niche signals now =
    elim (upsert_all_cases signals now (record { niche_id = niche; cells = [] })) [
      | inr (h, e) ↦ inr (h, e)
      | inl (h, (grid, e, bests)) ↦ inl (h, (grid, e, λ ty tier. bests ty tier ∙ ground arith))
    ]
