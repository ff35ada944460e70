-- ===== src/Load/Worker.antt =====
-- `spawn_worker` of src/lib.rs and the counters that the workers share, `LiveCounters` of
-- src/metrics/request.rs. A worker is the list of its steps on the counters, which the steps of the
-- other workers come between. What an iteration gives is an argument.
use strobengine.Prelude.{ℕ, ◌*◌, Bool, true, false, List, [], ◌∷◌, ◌++◌, none, ltb, if◌then◌else◌}
use strobengine.Prelude.Words.{add64, sub64}
use strobengine.Metrics.Histograms.{to_u64}
use strobengine.Metrics.Request.{RequestMetric, builder, is_error}

pub record LiveCounters : Type 0 where
  pub total_requests : ℕ
  pub completed_requests : ℕ
  pub errors : ℕ
  pub bytes_received : ℕ
  pub active_workers : ℕ
  pub latency_sum_micros : ℕ
  pub latency_count : ℕ

unfoldable pub new_counters : LiveCounters
new_counters = record {
  total_requests = 0;
  completed_requests = 0;
  errors = 0;
  bytes_received = 0;
  active_workers = 0;
  latency_sum_micros = 0;
  latency_count = 0;
}

-- What a worker does to the counters, at its start, before an iteration, after one with its metric
-- and at its end; and its metric going into the channel.
pub data LoadStep : Type 0 where
  starts begins : LoadStep
  completes sends : RequestMetric → LoadStep
  leaves : LoadStep

unfoldable pub count_step : LiveCounters → LoadStep → LiveCounters
count_step c starts = record c { active_workers = add64 c.active_workers 1 }
count_step c begins = record c { total_requests = add64 c.total_requests 1 }
count_step c (completes m) = record c {
  completed_requests = add64 c.completed_requests 1;
  bytes_received = add64 c.bytes_received m.bytes_received;
  latency_sum_micros = add64 c.latency_sum_micros (to_u64 m.latency_micros);
  latency_count = add64 c.latency_count 1;
  errors = if is_error m then add64 c.errors 1 else c.errors;
}
count_step c (sends m) = c
count_step c leaves = record c { active_workers = sub64 c.active_workers 1 }

unfoldable pub count_steps : LiveCounters → List LoadStep → LiveCounters
count_steps c [] = c
count_steps c (s ∷ steps) = count_steps (count_step c s) steps

-- How an iteration ends: its token is cancelled, it outlasts the deadline, or it has a metric.
pub data Ending : Type 0 where
  cancelled outlasts : Ending
  has_metric : RequestMetric → Ending

-- One round of a worker's loop: whether it starts, that is, there is time left and the token is not
-- cancelled; how the iteration ends; and whether the channel takes the
-- metric, which it does not once its receiver is closed.
pub record LoadRound : Type 0 where
  pub goes_on : Bool
  pub ending : Ending
  pub taken : Bool

-- The deadline in seconds.
abbrev pub deadline_secs : ℕ → ℕ
deadline_secs timeout_secs = if ltb 0 timeout_secs then timeout_secs else 5

unfoldable pub loop_steps : ℕ → List LoadRound → List LoadStep
loop_steps timeout_secs [] = []
loop_steps timeout_secs (r ∷ rounds) = elim r.goes_on [
  | false ↦ []
  | true ↦ elim r.ending [
    | cancelled ↦ begins ∷ []
    | outlasts ↦
        begins ∷ completes (builder (deadline_secs timeout_secs * 1000000) none) ∷ (elim r.taken [
          | true ↦
              sends (builder (deadline_secs timeout_secs * 1000000) none)
              ∷ loop_steps timeout_secs rounds
          | false ↦ []
        ])
    | has_metric m ↦
        begins
        ∷ completes m
        ∷ (elim r.taken [ true ↦ sends m ∷ loop_steps timeout_secs rounds | false ↦ [] ])
  ]
]

unfoldable pub spawn_worker : ℕ → List LoadRound → List LoadStep
spawn_worker timeout_secs rounds = starts ∷ (loop_steps timeout_secs rounds ++ leaves ∷ [])

-- The steps of two lists, in an order that keeps each list's own.
pub data Shuffles : List LoadStep → List LoadStep → List LoadStep → Type 0 where
  none_left : Shuffles [] [] []
  left_first :
      {s : LoadStep} {xs ys zs : List LoadStep} → Shuffles xs ys zs → Shuffles (s ∷ xs) ys (s ∷ zs)
  right_first :
      {s : LoadStep} {xs ys zs : List LoadStep} → Shuffles xs ys zs → Shuffles xs (s ∷ ys) (s ∷ zs)

-- The same for the workers of a run, each with its rounds.
pub data RunsAs (timeout_secs : ℕ) : List (List LoadRound) → List LoadStep → Type 0 where
  no_workers : RunsAs timeout_secs [] []
  one_more :
      {rounds : List LoadRound} {others : List (List LoadRound)} {rest all : List LoadStep}
      → RunsAs timeout_secs others rest
      → Shuffles (spawn_worker timeout_secs rounds) rest all
      → RunsAs timeout_secs (rounds ∷ others) all
