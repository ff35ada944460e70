-- ===== src/Config.antt =====
-- The load profiles of src/config.rs: how many virtual users a run wants at each second. A usize is
-- one of 64 bits.
use strobengine.Prelude.{ℕ, max, ltb, ◌==◌, if◌then◌else◌}
use strobengine.Prelude.Words.{add64}
use strobengine.Prelude.Floats.{Floats}

pub data LoadProfile : Type 0 where
  -- concurrency, duration_secs
  constant : ℕ → ℕ → LoadProfile
  -- start_concurrency, target_concurrency, ramp_secs, hold_secs
  ramp : ℕ → ℕ → ℕ → ℕ → LoadProfile
  -- baseline_concurrency, peak_concurrency, pre_spike_secs, spike_secs, post_spike_secs
  spike : ℕ → ℕ → ℕ → ℕ → ℕ → LoadProfile

unfoldable pub total_duration : LoadProfile → ℕ
total_duration (constant concurrency duration_secs) = duration_secs
total_duration (ramp start_users target_users ramp_secs hold_secs) = add64 ramp_secs hold_secs
total_duration (spike baseline peak pre_spike_secs spike_secs post_spike_secs) =
    add64 (add64 pre_spike_secs spike_secs) post_spike_secs

unfoldable pub max_concurrency : LoadProfile → ℕ
max_concurrency (constant concurrency duration_secs) = concurrency
max_concurrency (ramp start_users target_users ramp_secs hold_secs) = target_users
max_concurrency (spike baseline peak pre_spike_secs spike_secs post_spike_secs) = peak

unfoldable pub concurrency_upper_bound : LoadProfile → ℕ
concurrency_upper_bound (constant concurrency duration_secs) = concurrency
concurrency_upper_bound (ramp start_users target_users ramp_secs hold_secs) =
    max start_users target_users
concurrency_upper_bound (spike baseline peak pre_spike_secs spike_secs post_spike_secs) =
    max baseline peak

module _ (R : Floats) where
  -- The rounded point of a ramp at a second.
  unfoldable pub ramp_point : ℕ → ℕ → ℕ → ℕ → ℕ
  ramp_point start_users target_users ramp_secs t =
      let progress = R.div (R.of_u64 t) (R.of_u64 ramp_secs) in
      let range = R.sub (R.of_u64 target_users) (R.of_u64 start_users) in
      R.to_u64 (R.round (R.add (R.of_u64 start_users) (R.mul range progress)))

  unfoldable pub target_concurrency : LoadProfile → ℕ → ℕ
  target_concurrency (constant concurrency duration_secs) t = concurrency
  target_concurrency (ramp start_users target_users ramp_secs hold_secs) t =
      if ltb t ramp_secs
      then (if ramp_secs == 0
          then target_users
          else ramp_point start_users target_users ramp_secs t)
      else target_users
  target_concurrency (spike baseline peak pre_spike_secs spike_secs post_spike_secs) t =
      if ltb t pre_spike_secs
      then baseline
      else if ltb t (add64 pre_spike_secs spike_secs)
      then peak
      else baseline
