-- ===== src/Load/Refused.antt =====
-- What the workers of src/lib.rs count, send and, once the receiver is closed, lose.
use strobengine.Prelude.{
  ℕ, ◌+◌, ◌*◌, ◌%◌, ◌<◌, ◌≡◌, refl, Bool, true, false, none, List, [], ◌∷◌, arith, map,
}
use strobengine.Prelude.Words.{u64_mod, add64}
use strobengine.Prelude.Totals.{sum_where}
use strobengine.Metrics.Request.{RequestMetric, builder}
use strobengine.Load.Worker.{
  LoadStep, starts, begins, completes, sends, leaves, Ending, cancelled, outlasts, has_metric,
  deadline_secs, LoadRound, loop_steps, spawn_worker,
}
use strobengine.Load.Counters.{total_of, total_of-append, worker_total, weighs, sent_weight}

pub spawned :
    (weight : LoadStep → ℕ) (t : ℕ) (rounds : List LoadRound)
    → total_of weight (spawn_worker t rounds)
      ≡ weight starts + total_of weight (loop_steps t rounds) + weight leaves
unfolding spawn_worker total_of
spawned weight t rounds = omega (arith, total_of-append weight (loop_steps t rounds) (leaves ∷ []))

-- The metrics that the channel takes, in order.
unfoldable pub metrics_of : List LoadStep → List RequestMetric
metrics_of [] = []
metrics_of (sends m ∷ steps) = m ∷ metrics_of steps
metrics_of (_ ∷ steps) = metrics_of steps

-- What the metric weighs that a worker has counted and the channel refuses, which is its last: 0
-- without one.
unfoldable pub refused : (RequestMetric → ℕ) → ℕ → List LoadRound → ℕ
refused f t [] = 0
refused f t (r ∷ rounds) = elim r.goes_on [
  | false ↦ 0
  | true ↦ elim r.ending [
    | cancelled ↦ 0
    | outlasts ↦ elim r.taken [
      | true ↦ refused f t rounds
      | false ↦ f (builder (deadline_secs t * 1000000) none)
    ]
    | has_metric m ↦ elim r.taken [ true ↦ refused f t rounds | false ↦ f m ]
  ]
]

unfoldable pub all_refused : (RequestMetric → ℕ) → ℕ → List (List LoadRound) → ℕ
all_refused f t [] = 0
all_refused f t (rounds ∷ others) = refused f t rounds + all_refused f t others

-- What a worker counts is what it has sent and what is refused.
loop-refused :
    (f : RequestMetric → ℕ) (t : ℕ) (rounds : List LoadRound)
    → total_of (weighs f) (loop_steps t rounds)
      ≡ total_of (sent_weight f) (loop_steps t rounds) + refused f t rounds
unfolding loop_steps total_of refused
loop-refused f t [] = refl
loop-refused f t (r ∷ rounds) = by_round r.goes_on r.ending r.taken (loop-refused f t rounds)
  where
    by_round :
        (g : Bool) (e : Ending) (k : Bool)
        → total_of (weighs f) (loop_steps t rounds)
          ≡ total_of (sent_weight f) (loop_steps t rounds) + refused f t rounds
        → let steps : List LoadStep = elim g [
          | false ↦ []
          | true ↦ elim e [
            | cancelled ↦ begins ∷ []
            | outlasts ↦ begins ∷ completes (builder (deadline_secs t * 1000000) none) ∷ (elim k [
              | true ↦ sends (builder (deadline_secs t * 1000000) none) ∷ loop_steps t rounds
              | false ↦ []
            ])
            | has_metric m ↦
                begins
                ∷ completes m
                ∷ (elim k [ true ↦ sends m ∷ loop_steps t rounds | false ↦ [] ])
          ]
        ] in
          let lost : ℕ = elim g [
            | false ↦ 0
            | true ↦ elim e [
              | cancelled ↦ 0
              | outlasts ↦ elim k [
                | true ↦ refused f t rounds
                | false ↦ f (builder (deadline_secs t * 1000000) none)
              ]
              | has_metric m ↦ elim k [ true ↦ refused f t rounds | false ↦ f m ]
            ]
          ] in
          total_of (weighs f) steps ≡ total_of (sent_weight f) steps + lost
    by_round false e k h = refl
    by_round true cancelled k h = refl
    by_round true outlasts false h = omega arith
    by_round true (has_metric m) false h = omega arith
    by_round true outlasts true h = omega (arith, h)
    by_round true (has_metric m) true h = omega (arith, h)

pub workers-refused :
    (f : RequestMetric → ℕ) (t : ℕ) (workers : List (List LoadRound))
    → worker_total t (weighs f) workers
      ≡ worker_total t (sent_weight f) workers + all_refused f t workers
unfolding worker_total all_refused
workers-refused f t [] = refl
workers-refused f t (rounds ∷ others) = omega (
  arith,
  workers-refused f t others,
  loop-refused f t rounds,
  spawned (weighs f) t rounds,
  spawned (sent_weight f) t rounds,
)

pub sum_over : (RequestMetric → ℕ) → List RequestMetric → ℕ
sum_over f [] = 0
sum_over f (m ∷ ms) = f m + sum_over f ms

pub sum_over-metrics_of :
    (f : RequestMetric → ℕ) (steps : List LoadStep)
    → sum_over f (metrics_of steps) ≡ total_of (sent_weight f) steps
unfolding sum_over metrics_of total_of
sum_over-metrics_of f [] = refl
sum_over-metrics_of f (sends m ∷ steps) = omega (arith, sum_over-metrics_of f steps)
sum_over-metrics_of f (completes m ∷ steps) = omega (arith, sum_over-metrics_of f steps)
sum_over-metrics_of f (starts ∷ steps) = omega (arith, sum_over-metrics_of f steps)
sum_over-metrics_of f (begins ∷ steps) = omega (arith, sum_over-metrics_of f steps)
sum_over-metrics_of f (leaves ∷ steps) = omega (arith, sum_over-metrics_of f steps)

pub sum_where-sum_over :
    (f : RequestMetric → ℕ) (acc : ℕ) (ms : List (RequestMetric × ℕ))
    → acc < u64_mod
    → sum_where (λ m. true) (λ m. f m.0) acc ms ≡ (acc + sum_over f (map (λ m. m.0) ms)) % u64_mod
unfolding sum_where sum_over
sum_where-sum_over f acc [] b = omega (arith, b)
sum_where-sum_over f acc (m ∷ ms) b =
    omega (arith, sum_where-sum_over f (add64 acc (f m.0)) ms (omega arith))
