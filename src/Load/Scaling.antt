-- ===== src/Load/Scaling.antt =====
-- The supervisor of src/lib.rs keeps as many workers as the profile wants, and loses none.
use strobengine.Prelude.{
  ℕ, zero, suc, ◌+◌, ◌-◌, ◌≤◌, ◌<◌, ◌≡◌, refl, ◌∙◌, ap, subst, inl, inr, true, false, List, [], ◌∷◌,
  Option, none, some, arith, ltb, leb, ◌==◌, ◌||◌, if◌then◌else◌, length, Bool-cases,
}
use strobengine.Prelude.Floats.{Floats}
use strobengine.Config.{LoadProfile, total_duration, target_concurrency}
use strobengine.Load.Supervisor.{
  Supervisor, new_supervisor, spawn_child, scale_up, pop_child, cancel_child, scale_down, tick,
  Reading, supervise, cancel_all, teardown,
}

-- How often a worker is in a list.
unfoldable pub occurs : ℕ → List ℕ → ℕ
occurs k [] = 0
occurs k (x ∷ xs) = (if k == x then 1 else 0) + occurs k xs

-- The tokens and the handles are of the same workers, as many as are counted, and each worker that
-- was spawned is once among them or the cancelled.
pub record Inv (s : Supervisor) : Type 0 where
  pub same_workers : s.handles ≡ s.child_tokens
  pub as_counted : length s.child_tokens ≡ s.current_concurrency
  pub each_once :
      (k : ℕ) → occurs k s.child_tokens + occurs k s.cancelled ≡ (if ltb k s.spawned then 1 else 0)

spawn_child-Inv : (s : Supervisor) → Inv s → Inv (spawn_child s)
unfolding spawn_child occurs
spawn_child-Inv s i = record {
  same_workers = ap (◌∷◌ s.spawned) i.same_workers;
  as_counted = omega (arith, i.as_counted);
  each_once =
      λ k. one_more k s.spawned (occurs k s.child_tokens) (occurs k s.cancelled) (i.each_once k);
}
  where
    one_more :
        (k n a b : ℕ)
        → a + b ≡ (if ltb k n then 1 else 0)
        → (if k == n then 1 else 0) + a + b ≡ (if ltb k (n + 1) then 1 else 0)
    one_more k n a b h = ground (arith, h)

not_below : (a b : ℕ) → ltb a b ≡ false → b ≤ a
not_below a b h = ground (arith, h)

below : (a b : ℕ) → ltb a b ≡ true → a < b
below a b h = ground (arith, h)

scale_up-Inv :
    (fuel target : ℕ) (s : Supervisor)
    → Inv s
    → Inv (scale_up fuel target s)
      × (target ≤ s.current_concurrency + fuel
          → target ≤ (scale_up fuel target s).current_concurrency)
unfolding scale_up
scale_up-Inv zero target s i = (i, λ h. omega (arith, h))
scale_up-Inv (suc fuel) target s i = elim (Bool-cases (ltb s.current_concurrency target)) [
  | inl t ↦
      let more = scale_up-Inv fuel target (spawn_child s) (spawn_child-Inv s i) in
      rw (t, scale_up) (more.0, λ h. more.1 (unfold spawn_child in omega (arith, h)))
  | inr t ↦ rw (t, scale_up) (i, λ h. not_below s.current_concurrency target t)
]

pop_child-Inv :
    (ts hs : List ℕ) (s : Supervisor)
    → hs ≡ ts
    → length ts ≡ s.current_concurrency
    → ((k : ℕ) → occurs k ts + occurs k s.cancelled ≡ (if ltb k s.spawned then 1 else 0))
    → 0 < s.current_concurrency
    → Inv (pop_child ts hs s)
      × ((pop_child ts hs s).current_concurrency ≡ s.current_concurrency - 1)
unfolding occurs
pop_child-Inv [] hs s e l o p = let absurd : ⊥ = omega (arith, l, p) in elim absurd [ ]
pop_child-Inv (t ∷ ts) [] s e l o p =
    let unequal : 0 ≡ length (t ∷ ts) = ap length e in
    let absurd : ⊥ = omega (arith, unequal) in elim absurd [ ]
pop_child-Inv (t ∷ ts) (h ∷ hs) s e l o p = (
  record { same_workers = cc; as_counted = omega (arith, l); each_once = λ k. omega (arith, o k) },
  refl,
)

cancel_child-Inv :
    (s : Supervisor)
    → Inv s
    → 0 < s.current_concurrency
    → Inv (cancel_child s) × ((cancel_child s).current_concurrency ≡ s.current_concurrency - 1)
unfolding cancel_child
cancel_child-Inv s i p =
    pop_child-Inv s.child_tokens s.handles s i.same_workers i.as_counted i.each_once p

-- A supervisor with the invariant and so many workers.
abbrev pub Keeps : ℕ → Option Supervisor → Type 0
Keeps target none = ⊥
Keeps target (some s) = Inv s × (s.current_concurrency ≡ target)

scale_down-Keeps :
    (fuel target : ℕ) (s : Supervisor)
    → Inv s
    → target ≤ s.current_concurrency
    → s.current_concurrency ≤ fuel + target
    → Keeps target (scale_down fuel target s)
unfolding scale_down
scale_down-Keeps zero target s i low high =
    rw (at_most s.current_concurrency target (omega (arith, high)), scale_down)
      (i, omega (arith, low, high))
  where
    at_most : (a b : ℕ) → a ≤ b → ltb b a ≡ false
    at_most a b h = ground (arith, h)
scale_down-Keeps (suc fuel) target s i low high =
    elim (Bool-cases (ltb target s.current_concurrency)) [
      | inl t ↦
          let above = below target s.current_concurrency t in
          let less = cancel_child-Inv s i (omega (arith, above)) in
          rw (t, scale_down)
            (scale_down-Keeps fuel target (cancel_child s) less.0 (omega (arith, less.1, above))
              (omega (arith, less.1, high, above)))
      | inr t ↦ rw (t, scale_down) (i, omega (arith, low, not_below target s.current_concurrency t))
    ]

tick-Keeps : (target : ℕ) (s : Supervisor) → Inv s → Keeps target (tick target s)
unfolding tick
tick-Keeps target s i =
    let wide = scale_up target target s in
    let up = scale_up-Inv target target s i in
    awaited (scale_down wide.current_concurrency target wide) (
      scale_down-Keeps wide.current_concurrency target wide up.0 (up.1 (omega arith)) (omega arith))
  where
    awaited :
        (o : Option Supervisor)
        → Keeps target o
        → Keeps target
            (elim o [ none ↦ none | some narrow ↦ some (record narrow { reaped_handles = [] }) ])
    awaited none k = k
    awaited (some narrow) (j, c) = (
      record { same_workers = j.same_workers; as_counted = j.as_counted; each_once = j.each_once },
      c,
    )

module _ (R : Floats) (profile : LoadProfile) where
  -- What the profile wants at the last reading before the one that ends the loop, or what there was
  -- before, if the first one does.
  unfoldable pub last_target : List Reading → ℕ → ℕ
  last_target [] before = before
  last_target (r ∷ readings) before =
      if leb (total_duration profile) r.elapsed_secs || r.is_cancelled
      then before
      else last_target readings (target_concurrency R profile r.elapsed_secs)

  supervise-Keeps :
      (readings : List Reading) (s : Supervisor)
      → Inv s
      → Keeps (last_target readings s.current_concurrency) (supervise R profile readings s)
  unfolding supervise last_target
  supervise-Keeps [] s i = (i, refl)
  supervise-Keeps (r ∷ readings) s i =
      elim (Bool-cases (leb (total_duration profile) r.elapsed_secs || r.is_cancelled)) [
        | inl t ↦ rw (t, supervise, last_target) (i, refl)
        | inr t ↦
            rw (t, supervise, last_target)
              (next (tick (target_concurrency R profile r.elapsed_secs) s)
                (tick-Keeps (target_concurrency R profile r.elapsed_secs) s i)
                (λ u j. supervise-Keeps readings u j))
      ]
    where
      next :
          (o : Option Supervisor)
          → Keeps (target_concurrency R profile r.elapsed_secs) o
          → ((u : Supervisor)
              → Inv u
              → Keeps (last_target readings u.current_concurrency) (supervise R profile readings u))
          → Keeps
              (last_target readings (target_concurrency R profile r.elapsed_secs))
              (elim o [ none ↦ none | some t ↦ supervise R profile readings t ])
      next none k more = elim k [ ]
      next (some u) (j, c) more =
          subst (λ n. Keeps (last_target readings n) (supervise R profile readings u)) c (more u j)

cancel_all-occurs :
    (k : ℕ) (tokens cancelled : List ℕ)
    → occurs k (cancel_all tokens cancelled) ≡ occurs k tokens + occurs k cancelled
unfolding cancel_all occurs
cancel_all-occurs k [] cancelled = omega arith
cancel_all-occurs k (t ∷ tokens) cancelled =
    omega (arith, cancel_all-occurs k tokens (t ∷ cancelled))

new-Inv : Inv new_supervisor
unfolding new_supervisor occurs
new-Inv = record { same_workers = refl; as_counted = refl; each_once = λ k. ground arith }

-- A supervisor that has ended with so many workers, after whose teardown every worker that was
-- spawned, and no other, is cancelled, once.
abbrev pub EndsWell : ℕ → Option Supervisor → Type 0
EndsWell target none = ⊥
EndsWell target (some s) =
    (s.current_concurrency ≡ target)
    × ((k : ℕ) → occurs k (teardown s).cancelled ≡ (if ltb k s.spawned then 1 else 0))

ends_well : (target : ℕ) (o : Option Supervisor) → Keeps target o → EndsWell target o
unfolding teardown
ends_well target none w = w
ends_well target (some s) (i, c) =
    (c, λ k. cancel_all-occurs k s.child_tokens s.cancelled ∙ i.each_once k)

-- The loops of the supervisor end at every tick, whatever the profile; when it ends it has as many
-- workers as the profile wants at the last reading at which the run went on, or none if there is no
-- such reading; and after the teardown each worker that was spawned is cancelled, exactly once.
pub supervise-EndsWell :
    (R : Floats) (profile : LoadProfile) (readings : List Reading)
    → EndsWell (last_target R profile readings 0) (supervise R profile readings new_supervisor)
unfolding new_supervisor
supervise-EndsWell R profile readings =
    ends_well (last_target R profile readings 0) (supervise R profile readings new_supervisor)
      (supervise-Keeps R profile readings new_supervisor new-Inv)
