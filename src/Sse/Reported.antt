-- ===== src/Sse/Reported.antt =====
-- What the aggregation of src/metrics/aggregate.rs makes of the counts that a persistent session of
-- src/protocols/sse.rs reports.
use strobengine.Prelude.{
  ℕ, zero, suc, ◌+◌, ◌%◌, ◌≡◌, refl, ◌∙◌, ap, true, List, [], ◌∷◌, Option, none, some, arith,
  length, map, All,
}
use strobengine.Prelude.Words.{u64_mod, add64}
use strobengine.Prelude.Totals.{sum_where}
use strobengine.Prelude.Floats.{Floats}
use strobengine.Text.Utf8.{Bytes}
use strobengine.Metrics.Histograms.{Histograms}
use strobengine.Metrics.Request.{RequestMetric, builder, status, bytes, socket_reused, sse_events}
use strobengine.Metrics.Aggregate.{receive_all, new_running}
use strobengine.Metrics.Aggregate.Totals.{events, of_sse, sse_total}
use strobengine.Metrics.Aggregate.Sums.{for_sse, carried, carried_by, tally, tallied}
use strobengine.Sse.{SseEvent, parse_sse_chunk}
use strobengine.Sse.Session.{
  SseSession, Times, is_max_reached, read_events, connect_session, finish_read, ByteStream, got,
  execute_iteration_with_context,
}
use strobengine.Sse.Counting.{iterate}

-- 1 + 2 + … + n
unfoldable pub triangular : ℕ → ℕ
triangular zero = 0
triangular (suc n) = triangular n + suc n

-- A session without a cap that reads `body` and has received `n` events, none of them in part.
abbrev pub open_session : List Bytes → ℕ → ℕ → Option ℕ → Option ℕ → SseSession
open_session body code n first last = record {
  stream = some (map some body);
  status_code = code;
  events_received = n;
  first_event_time = first;
  last_event_time = last;
  buffer = [];
  max_events = none;
}

-- A connection's chunks, each with the instants of the iteration that reads it.
abbrev pub Chunks : Type 0
Chunks = List (Bytes × Times)

module _ (from_utf8_lossy : Bytes → Bytes) where
  -- The chunk holds one event, and nothing after it.
  abbrev pub HoldsOne : Bytes → Type 0
  HoldsOne chunk = (e : SseEvent) × (parse_sse_chunk [] (from_utf8_lossy chunk) ≡ (e ∷ [], []))

  -- An iteration for each chunk, none of them with a fault to draw or a response to await.
  abbrev pub served : SseSession → Chunks → SseSession × List RequestMetric
  served s xs = iterate from_utf8_lossy s (map (λ x. (none, none, x.1)) xs)

  read_one :
      (chunk : Bytes) (rest : ByteStream)
      → (h : HoldsOne chunk)
      → read_events from_utf8_lossy [] 0 (some chunk ∷ rest)
        ≡ got (h.0 ∷ []) [] (add64 0 (length chunk)) rest
  unfolding read_events
  read_one chunk rest h =
      ap
        (λ p. elim p.0 [
          | [] ↦ read_events from_utf8_lossy p.1 (add64 0 (length chunk)) rest
          | x ∷ xs ↦ got (x ∷ xs) p.1 (add64 0 (length chunk)) rest
        ])
        h.1

  first_time : Option ℕ → Times → Option ℕ
  first_time none t = some t.now
  first_time (some at) t = some at

  abbrev iteration :
      Bytes → List Bytes → ℕ → ℕ → Option ℕ → Option ℕ → Times → SseSession × RequestMetric
  iteration chunk body code n first last t =
      execute_iteration_with_context from_utf8_lossy (open_session (chunk ∷ body) code n first last)
        none none t

  next_session :
      (chunk : Bytes) (body : List Bytes) (code n : ℕ) (first last : Option ℕ) (t : Times)
      → HoldsOne chunk
      → (iteration chunk body code n first last t).0
        ≡ open_session body code (add64 n 1) (first_time first t) (some t.now)
  unfolding execute_iteration_with_context is_max_reached connect_session finish_read first_time
  next_session chunk body code n none last t h = rw (read_one chunk (map some body) h) refl
  next_session chunk body code n (some at) last t h = rw (read_one chunk (map some body) h) refl

  next_count :
      (chunk : Bytes) (body : List Bytes) (code n : ℕ) (first last : Option ℕ) (t : Times)
      → HoldsOne chunk
      → carried_by (for_sse events) ((iteration chunk body code n first last t).1, 0) ≡ add64 n 1
  unfolding execute_iteration_with_context is_max_reached connect_session finish_read carried of_sse
      sse_events socket_reused bytes status builder
  next_count chunk body code n first last t h = rw (read_one chunk (map some body) h) refl

  grown :
      (n acc : ℕ)
      → acc ≡ triangular n % u64_mod
      → add64 acc (add64 (n % u64_mod) 1) ≡ triangular (suc n) % u64_mod
  unfolding triangular
  grown n acc h = omega (arith, h)

  -- What the iterations' metrics carry, added to a count, and what the session has received.
  abbrev carried_from : ℕ → SseSession → Chunks → ℕ × ℕ
  carried_from acc s xs = (
    sum_where (λ m. true) (λ m. carried_by (for_sse events) (m, 0)) acc (served s xs).1,
    (served s xs).0.events_received,
  )

  reported_from :
      (code : ℕ) (first last : Option ℕ) (n acc : ℕ) (xs : Chunks)
      → All (λ x. HoldsOne x.0) xs
      → acc ≡ triangular n % u64_mod
      → let end =
          carried_from acc (open_session (map (λ x. x.0) xs) code (n % u64_mod) first last) xs in
        (end.0 ≡ triangular (n + length xs) % u64_mod) × (end.1 ≡ (n + length xs) % u64_mod)
  unfolding iterate sum_where
  reported_from code first last n acc [] o h =
      (h ∙ ap (λ k. triangular k % u64_mod) (omega arith), omega arith)
  reported_from code first last n acc ((chunk, t) ∷ xs) o h =
      let body = map (λ x. x.0) xs in
      let now =
        next_session chunk body code (n % u64_mod) first last t o.0
        ∙ ap (λ k. open_session body code k (first_time first t) (some t.now)) (next_number n) in
      let later =
        reported_from code (first_time first t) (some t.now) (suc n)
          (add64 acc (add64 (n % u64_mod) 1)) xs o.1 (grown n acc h) in
      (
        ap
              (λ k.
                sum_where (λ m. true) (λ m. carried_by (for_sse events) (m, 0)) (add64 acc k)
                  (served (iteration chunk body code (n % u64_mod) first last t).0 xs).1)
              (next_count chunk body code (n % u64_mod) first last t o.0)
            ∙ ap (λ s. (carried_from (add64 acc (add64 (n % u64_mod) 1)) s xs).0) now
            ∙ later.0
            ∙ ap (λ k. triangular k % u64_mod) (omega arith),
        ap (λ s. (carried_from 0 s xs).1) now ∙ later.1 ∙ ap (λ k. k % u64_mod) (omega arith),
      )
    where
      next_number : (k : ℕ) → add64 (k % u64_mod) 1 ≡ suc k % u64_mod
      next_number k = omega arith

  sum_where-map :
      (acc : ℕ) (ms : List RequestMetric) (at : ℕ)
      → sum_where (λ m. true) (carried_by (for_sse events)) acc (map (λ m. (m, at)) ms)
        ≡ sum_where (λ m. true) (λ m. carried_by (for_sse events) (m, 0)) acc ms
  unfolding sum_where
  sum_where-map acc [] at = refl
  sum_where-map acc (m ∷ ms) at =
      sum_where-map (add64 acc (carried_by (for_sse events) (m, 0))) ms at

  -- A session without a cap whose connection is open and has given no event yet, and whose `n`
  -- chunks hold one event each, has received `n` events after `n` iterations, and the aggregation of
  -- their metrics reports 1 + 2 + … + n (both modulo 2 ^ 64).
  pub events_reported :
      (R : Floats) (I : Histograms) (timeline_interval_ms start at code : ℕ) (xs : Chunks)
      → All (λ x. HoldsOne x.0) xs
      → let (session, metrics) = served (open_session (map (λ x. x.0) xs) code 0 none none) xs in
        (session.events_received ≡ length xs % u64_mod)
        × ((receive_all R I
              (new_running R I timeline_interval_ms start)
              (map (λ m. (m, at)) metrics)).protocols.sse.stats.total_events_received
            ≡ triangular (length xs) % u64_mod)
  unfolding tally sse_total triangular
  events_reported R I interval start at code xs o =
      let metrics = (served (open_session (map (λ x. x.0) xs) code 0 none none) xs).1 in
      let end = reported_from code none none 0 0 xs o refl in
      (
        end.1 ∙ ap (λ k. k % u64_mod) (omega arith),
        tallied R I (for_sse events) interval start (map (λ m. (m, at)) metrics)
            ∙ sum_where-map 0 metrics at
            ∙ end.0
            ∙ ap (λ k. triangular k % u64_mod) (omega arith),
      )
