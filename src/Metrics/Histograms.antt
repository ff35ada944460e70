-- ===== src/Metrics/Histograms.antt =====
-- What the code uses of `hdrhistogram`, a parameter of the models of which nothing is assumed.
-- `iter_recorded` lists values with their counts; `value_at_quantile` takes the quantile as a
-- fraction; a mean and a deviation are the bits of an f64. `as_ms` is the conversion of microseconds
-- to an f32 of milliseconds.
use Prim.Native.Nat.{ℕ, ◌-◌, min}
use mathlib.Core.List.{List}
use strobengine.Prelude.Words.{u64_mod}

pub record Histograms : Type 1 where
  pub H : Type 0
  pub empty : H
  pub saturating_record : H → ℕ → H
  pub iter_recorded : H → List (ℕ × ℕ)
  pub len : H → ℕ
  pub lowest : H → ℕ
  pub highest : H → ℕ
  pub mean : H → ℕ
  pub stdev : H → ℕ
  pub value_at_quantile : H → ℕ → ℕ → ℕ
  pub as_ms : ℕ → ℕ

-- `u64::try_from(value).unwrap_or(u64::MAX)`
abbrev pub to_u64 : ℕ → ℕ
to_u64 value = min value (u64_mod - 1)
