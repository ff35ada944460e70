-- ===== src/Load/Counters.antt =====
-- What the shared counters of src/lib.rs hold at the end of a run, however its workers interleave.
use strobengine.Prelude.{
  ℕ, ◌+◌, ◌-◌, ◌*◌, ◌%◌, ◌<◌, ◌≡◌, refl, Bool, true, false, List, [], ◌∷◌, ◌++◌, none, arith,
}
use strobengine.Prelude.Words.{u64_mod}
use strobengine.Metrics.Request.{RequestMetric, builder}
use strobengine.Load.Worker.{
  LiveCounters, LoadStep, starts, begins, completes, sends, leaves, count_step, count_steps, Ending,
  cancelled, outlasts, has_metric, LoadRound, deadline_secs, loop_steps, spawn_worker, Shuffles,
  none_left, left_first, right_first, RunsAs, no_workers, one_more,
}

unfoldable pub total_of : (LoadStep → ℕ) → List LoadStep → ℕ
total_of weight [] = 0
total_of weight (s ∷ steps) = weight s + total_of weight steps

pub total_of-append :
    (weight : LoadStep → ℕ) (xs ys : List LoadStep)
    → total_of weight (xs ++ ys) ≡ total_of weight xs + total_of weight ys
unfolding total_of
total_of-append weight [] ys = omega arith
total_of-append weight (x ∷ xs) ys = omega (arith, total_of-append weight xs ys)

total_of-Shuffles :
    (weight : LoadStep → ℕ) {xs ys zs : List LoadStep}
    → Shuffles xs ys zs
    → total_of weight zs ≡ total_of weight xs + total_of weight ys
unfolding total_of
total_of-Shuffles weight none_left = refl
total_of-Shuffles weight (left_first p) = omega (arith, total_of-Shuffles weight p)
total_of-Shuffles weight (right_first p) = omega (arith, total_of-Shuffles weight p)

module _ (timeout_secs : ℕ) where
  -- The sum over the workers, each by itself.
  unfoldable pub worker_total : (LoadStep → ℕ) → List (List LoadRound) → ℕ
  worker_total weight [] = 0
  worker_total weight (rounds ∷ others) =
      total_of weight (spawn_worker timeout_secs rounds) + worker_total weight others

  pub total_of-RunsAs :
      (weight : LoadStep → ℕ) {workers : List (List LoadRound)} {all : List LoadStep}
      → RunsAs timeout_secs workers all
      → total_of weight all ≡ worker_total weight workers
  unfolding worker_total total_of
  total_of-RunsAs weight no_workers = refl
  total_of-RunsAs weight (one_more rest p) =
      omega (arith, total_of-Shuffles weight p, total_of-RunsAs weight rest)

-- A counter of 64 bits to which each step adds its weight.
abbrev pub Adds : (LiveCounters → ℕ) → (LoadStep → ℕ) → Type 0
Adds counter weight =
    (c : LiveCounters) (s : LoadStep)
    → counter c < u64_mod
    → counter (count_step c s) ≡ (counter c + weight s) % u64_mod

pub counter-count_steps :
    (counter : LiveCounters → ℕ) (weight : LoadStep → ℕ) (c : LiveCounters) (steps : List LoadStep)
    → Adds counter weight
    → counter c < u64_mod
    → counter (count_steps c steps) ≡ (counter c + total_of weight steps) % u64_mod
unfolding count_steps total_of
counter-count_steps counter weight c [] h b = omega (arith, b)
counter-count_steps counter weight c (s ∷ steps) h b =
    let step = h c s b in
    omega (
      arith,
      counter-count_steps counter weight (count_step c s) steps h (omega (arith, step)),
      step,
    )

abbrev pub is_begun : LoadStep → ℕ
is_begun begins = 1
is_begun _ = 0

-- What the metrics of the completed iterations weigh.
abbrev pub weighs : (RequestMetric → ℕ) → LoadStep → ℕ
weighs f (completes m) = f m
weighs f _ = 0

-- What the metrics that the channel has taken weigh.
abbrev pub sent_weight : (RequestMetric → ℕ) → LoadStep → ℕ
sent_weight f (sends m) = f m
sent_weight f _ = 0

abbrev pub is_completed : LoadStep → ℕ
is_completed = weighs (λ m. 1)

-- A worker more, or one less modulo 2 ^ 64.
abbrev pub is_active : LoadStep → ℕ
is_active starts = 1
is_active leaves = u64_mod - 1
is_active _ = 0

abbrev pub has_bytes : LoadStep → ℕ
has_bytes = weighs (λ m. m.bytes_received)

pub total_requests-Adds : Adds (λ c. c.total_requests) is_begun
unfolding count_step
total_requests-Adds c starts b = omega (arith, b)
total_requests-Adds c begins b = refl
total_requests-Adds c (completes m) b = omega (arith, b)
total_requests-Adds c (sends m) b = omega (arith, b)
total_requests-Adds c leaves b = omega (arith, b)

pub completed_requests-Adds : Adds (λ c. c.completed_requests) is_completed
unfolding count_step
completed_requests-Adds c (completes m) b = refl
completed_requests-Adds c starts b = omega (arith, b)
completed_requests-Adds c begins b = omega (arith, b)
completed_requests-Adds c (sends m) b = omega (arith, b)
completed_requests-Adds c leaves b = omega (arith, b)

pub bytes_received-Adds : Adds (λ c. c.bytes_received) has_bytes
unfolding count_step
bytes_received-Adds c (completes m) b = refl
bytes_received-Adds c starts b = omega (arith, b)
bytes_received-Adds c begins b = omega (arith, b)
bytes_received-Adds c (sends m) b = omega (arith, b)
bytes_received-Adds c leaves b = omega (arith, b)

pub active_workers-Adds : Adds (λ c. c.active_workers) is_active
unfolding count_step
active_workers-Adds c starts b = refl
active_workers-Adds c (sends m) b = omega (arith, b)
active_workers-Adds c leaves b = omega (arith, b)
active_workers-Adds c begins b = omega (arith, b)
active_workers-Adds c (completes m) b = omega (arith, b)

-- Whether the worker's loop ends with an iteration that is cancelled: 1, or 0.
unfoldable pub cut_short : List LoadRound → ℕ
cut_short [] = 0
cut_short (r ∷ rounds) = elim r.goes_on [
  | false ↦ 0
  | true ↦ elim r.ending [
    | cancelled ↦ 1
    | _ ↦ elim r.taken [ true ↦ cut_short rounds | false ↦ 0 ]
  ]
]

unfoldable pub cut_shorts : List (List LoadRound) → ℕ
cut_shorts [] = 0
cut_shorts (rounds ∷ others) = cut_short rounds + cut_shorts others

pub loop-totals :
    (t : ℕ) (rounds : List LoadRound)
    → (total_of is_begun (loop_steps t rounds)
        ≡ total_of is_completed (loop_steps t rounds) + cut_short rounds)
      × (total_of is_active (loop_steps t rounds) ≡ 0)
unfolding loop_steps total_of cut_short
loop-totals t [] = (refl, refl)
loop-totals t (r ∷ rounds) = by_round r.goes_on r.ending r.taken (loop-totals t rounds)
  where
    by_round :
        (g : Bool) (e : Ending) (k : Bool)
        → (total_of is_begun (loop_steps t rounds)
            ≡ total_of is_completed (loop_steps t rounds) + cut_short rounds)
          × (total_of is_active (loop_steps t rounds) ≡ 0)
        → let steps : List LoadStep = elim g [
          | false ↦ []
          | true ↦ elim e [
            | cancelled ↦ begins ∷ []
            | outlasts ↦ begins ∷ completes (builder (deadline_secs t * 1000000) none) ∷ (elim k [
              | true ↦ sends (builder (deadline_secs t * 1000000) none) ∷ loop_steps t rounds
              | false ↦ []
            ])
            | has_metric m ↦
                begins
                ∷ completes m
                ∷ (elim k [ true ↦ sends m ∷ loop_steps t rounds | false ↦ [] ])
          ]
        ] in
          let cut : ℕ = elim g [
            | false ↦ 0
            | true ↦ elim e [ cancelled ↦ 1 | _ ↦ elim k [ true ↦ cut_short rounds | false ↦ 0 ] ]
          ] in
          (total_of is_begun steps ≡ total_of is_completed steps + cut)
          × (total_of is_active steps ≡ 0)
    by_round false e k h = (refl, refl)
    by_round true cancelled k h = (refl, refl)
    by_round true outlasts false h = (refl, refl)
    by_round true (has_metric m) false h = (refl, refl)
    by_round true outlasts true h = (omega (arith, h.0), omega (arith, h.1))
    by_round true (has_metric m) true h = (omega (arith, h.0), omega (arith, h.1))
