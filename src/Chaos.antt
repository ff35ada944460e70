-- ===== src/Chaos.antt =====
-- Fault injection, src/chaos.rs. The random draws of `select_fault` are arguments: a float in
-- [0, 1) and a number below 4.
use strobengine.Prelude.{
  ℕ, zero, suc, Bool, List, [], ◌∷◌, Option, none, some, ◌||◌, not, if◌then◌else◌,
}
use strobengine.Prelude.Words.{add64}
use strobengine.Prelude.Maps.{upsert}
use strobengine.Prelude.Floats.{Floats}
use strobengine.Text.Utf8.{Bytes}
use strobengine.Text.Compare.{bytes_eq}
use Prim.Native.Char.{code}
use Prim.Native.String.{String}

-- The bytes of an ASCII text.
abbrev pub ascii : String → Bytes
ascii String.[] = []
ascii (String.◌∷◌ c s) = code c ∷ ascii s

pub data ChaosFault : Type 0 where
  latency_spike : ℕ → ChaosFault
  corrupted_payload metadata_corruption connection_drop : ChaosFault

unfoldable pub name : ChaosFault → Bytes
name (latency_spike duration_ms) = ascii "LatencySpike"
name corrupted_payload = ascii "CorruptedPayload"
name metadata_corruption = ascii "MetadataCorruption"
name connection_drop = ascii "ConnectionDrop"

pub record ChaosMetrics : Type 0 where
  pub total_injected : ℕ
  pub faults_by_type : List (Bytes × ℕ)

unfoldable pub record_fault : ChaosMetrics → ChaosFault → ChaosMetrics
record_fault m fault = record {
  total_injected = add64 m.total_injected 1;
  faults_by_type = upsert (name fault) 0 (λ n. add64 n 1) m.faults_by_type;
}

module _ (R : Floats) where
  pub record ChaosEngine : Type 0 where
    pub enabled : Bool
    pub rate : R.F

  -- `ChaosEngine::new`
  unfoldable pub new : Bool → R.F → ChaosEngine
  new enabled rate = record {
    enabled = enabled;
    rate = if R.is_nan rate then R.ratio 0 1 else R.clamp rate (R.ratio 0 1) (R.ratio 1 1);
  }

  unfoldable pub pick : ℕ → ChaosFault
  pick zero = latency_spike 150
  pick (suc zero) = corrupted_payload
  pick (suc (suc zero)) = metadata_corruption
  pick _ = connection_drop

  unfoldable pub select_fault : ChaosEngine → R.F → ℕ → Option ChaosFault
  select_fault e draw choice =
      if not e.enabled || R.at_least draw e.rate then none else some (pick choice)
