-- ===== src/Distributed/Master/Registry/Sweeping.antt =====
-- What a sweep of src/distributed/master/registry.rs evicts and reports.
use strobengine.Prelude.{
  ℕ, ◌⊎◌, ◌+◌, ◌-◌, ◌≤◌, ◌<◌, ltb, ◌≡◌, ◌≢◌, refl, sym, subst, ap, ◌∙◌, inl, inr, Bool, true, false,
  List, [], ◌∷◌, none, some, arith, All, if◌then◌else◌, Bool-cases,
}
use strobengine.Prelude.Maps.{lookup, map_value, Absent, DistinctKeys}
use strobengine.Text.Utf8.{Bytes}
use strobengine.Text.Compare.{bytes_eq, same, same_iff}
use strobengine.Distributed.Master.Registry.{
  WorkerStatus, registered, ready, running, failed, disconnected, WorkerRecord, Registry, ids_where,
  sweep, is_stale, is_disconnected, evict,
}
use strobengine.Distributed.Master.Registry.Invariant.{Inv}

-- What a sweep makes of one record.
abbrev pub swept : ℕ → ℕ → WorkerRecord → WorkerRecord
swept now timeout w = if is_stale now timeout w then evict w else w

pub lookup-sweep :
    (id : Bytes) (r : Registry) (now timeout : ℕ)
    → lookup id (sweep r now timeout).0 ≡ map_value (swept now timeout) (lookup id r)
unfolding lookup sweep
lookup-sweep id [] now timeout = refl
lookup-sweep id ((j, w) ∷ r) now timeout = ground (arith, lookup-sweep id r now timeout)

is_stale-evict : (now timeout : ℕ) (w : WorkerRecord) → is_stale now timeout (evict w) ≡ false
unfolding is_stale evict is_disconnected
is_stale-evict now timeout w = refl

sweep-stale :
    (r : Registry) (now timeout : ℕ) → (sweep r now timeout).1 ≡ ids_where (is_stale now timeout) r
unfolding sweep ids_where
sweep-stale [] now timeout = refl
sweep-stale ((j, w) ∷ r) now timeout = ground (arith, sweep-stale r now timeout)

sweep_again :
    (r : Registry) (now timeout : ℕ) → ids_where (is_stale now timeout) (sweep r now timeout).0 ≡ []
unfolding sweep ids_where
sweep_again [] now timeout = refl
sweep_again ((j, w) ∷ r) now timeout =
    ground (arith, sweep_again r now timeout, is_stale-evict now timeout w)

-- The id is one of those in the list.
abbrev pub IsAmong : Bytes → List Bytes → Type 0
IsAmong id [] = ⊥
IsAmong id (j ∷ ids) = (j ≡ id) ⊎ IsAmong id ids

-- The worker has a session, and its last heartbeat is longer ago than the timeout.
abbrev pub IsSilent : ℕ → ℕ → WorkerRecord → Type 0
IsSilent now timeout w = (w.status ≢ disconnected) × (w.last_heartbeat + timeout < now)

is_stale-IsSilent :
    (now timeout : ℕ) (w : WorkerRecord)
    → (is_stale now timeout w ≡ true → IsSilent now timeout w)
      × (is_stale now timeout w ≡ false → ¬ IsSilent now timeout w)
unfolding is_stale is_disconnected
is_stale-IsSilent now timeout w = by_status w.status
  where
    late : (now timeout last : ℕ) → ltb timeout (now - last) ≡ true → last + timeout < now
    late now timeout last t = ground (arith, t)

    in_time : (now timeout last : ℕ) → ltb timeout (now - last) ≡ false → now ≤ last + timeout
    in_time now timeout last t = ground (arith, t)

    connected :
        (s : WorkerStatus)
        → s ≢ disconnected
        → (ltb timeout (now - w.last_heartbeat) ≡ true
            → (s ≢ disconnected) × (w.last_heartbeat + timeout < now))
          × (ltb timeout (now - w.last_heartbeat) ≡ false
              → ¬ ((s ≢ disconnected) × (w.last_heartbeat + timeout < now)))
    connected s d = (
      (λ t. (d, late now timeout w.last_heartbeat t)),
      (λ t k. omega (arith, in_time now timeout w.last_heartbeat t, k.1)),
    )

    by_status :
        (s : WorkerStatus)
        → ((if is_disconnected s then false else ltb timeout (now - w.last_heartbeat)) ≡ true
            → (s ≢ disconnected) × (w.last_heartbeat + timeout < now))
          × ((if is_disconnected s then false else ltb timeout (now - w.last_heartbeat)) ≡ false
              → ¬ ((s ≢ disconnected) × (w.last_heartbeat + timeout < now)))
    by_status disconnected = ((λ t. cc), (λ t k. k.0 refl))
    by_status registered = connected registered (λ e. cc)
    by_status ready = connected ready (λ e. cc)
    by_status running = connected running (λ e. cc)
    by_status failed = connected failed (λ e. cc)

pub Absent-ids :
    (test : WorkerRecord → Bool) (r : Registry) (id : Bytes)
    → All (λ p. p.1.worker_id ≡ p.0) r
    → Absent id r
    → All (λ j. j ≢ id) (ids_where test r)
unfolding ids_where
Absent-ids test [] id o a = tt
Absent-ids test ((j, w) ∷ r) id o a = elim (Bool-cases (test w)) [
  | inl e ↦ rw (e, ids_where) ((λ q. a.0 (sym o.0 ∙ q)), Absent-ids test r id o.1 a.1)
  | inr e ↦ rw (e, ids_where) (Absent-ids test r id o.1 a.1)
]

-- The id of a record is among those of the records that pass a test exactly when the record does.
ids_where-lookup :
    (test : WorkerRecord → Bool) (r : Registry) (id : Bytes) {w : WorkerRecord}
    → All (λ p. p.1.worker_id ≡ p.0) r
    → DistinctKeys r
    → lookup id r ≡ some w
    → (test w ≡ true → IsAmong id (ids_where test r))
      × (test w ≡ false → All (λ j. j ≢ id) (ids_where test r))
unfolding ids_where lookup
ids_where-lookup test [] id o d h = let absurd : ⊥ = cc in elim absurd [ ]
ids_where-lookup test ((j, v) ∷ r) id {w} o d h = elim (Bool-cases (same j id)) [
  | inl t ↦
      let e : j ≡ id = (same_iff j id).0 t in
      let found : v ≡ w = ground (arith, t, h) in
      (
        (λ p. rw (ap test found ∙ p, ids_where) (inl (o.0 ∙ e))),
        (λ p.
            rw (ap test found ∙ p, ids_where)
              (Absent-ids test r id o.1 (subst (λ k. Absent k r) e d.0))),
      )
  | inr t ↦
      let later : lookup id r ≡ some w = ground (arith, t, h) in
      let (among, apart) = ids_where-lookup test r id o.1 d.1 later in
      let ne : j ≢ id = λ q. cc (t, (same_iff j id).1 q) in
      elim (Bool-cases (test v)) [
        | inl a ↦
            rw (a, ids_where) ((λ p. inr (among p)), (λ p. ((λ q. ne (sym o.0 ∙ q)), apart p)))
        | inr a ↦ rw (a, ids_where) (among, apart)
      ]
]

-- In a registry whose records are under their own ids, a sweep that finds a worker with a session
-- silent for longer than the timeout reports its id and leaves its record disconnected and without a
-- channel, all else as it was; of any other worker it changes nothing and does not report it. A
-- second sweep at the same time reports nobody.
pub sweep_exact :
    (r : Registry) (id : Bytes) (now timeout : ℕ) {w : WorkerRecord}
    → Inv r
    → lookup id r ≡ some w
    → (IsSilent now timeout w
        → (lookup id (sweep r now timeout).0
            ≡ some (record w { status = disconnected; command_tx = none }))
          × IsAmong id (sweep r now timeout).1)
      × (¬ IsSilent now timeout w
          → (lookup id (sweep r now timeout).0 ≡ some w)
            × All (λ j. j ≢ id) (sweep r now timeout).1)
      × ((sweep (sweep r now timeout).0 now timeout).1 ≡ [])
sweep_exact r id now timeout {w} v e =
    let after = lookup-sweep id r now timeout ∙ ap (map_value (swept now timeout)) e in
    let among = ids_where-lookup (is_stale now timeout) r id v.own_key v.distinct e in
    let stale = is_stale-IsSilent now timeout w in
    let back = sym (sweep-stale r now timeout) in
    elim (Bool-cases (is_stale now timeout w)) [
      | inl t ↦ (
        (λ k. (
          after ∙ (rw t (unfold evict in refl)),
          subst (λ ids. IsAmong id ids) back (among.0 t),
        )),
        (λ k. elim (k (stale.0 t)) [ ]),
        sweep-stale (sweep r now timeout).0 now timeout ∙ sweep_again r now timeout,
      )
      | inr t ↦ (
        (λ k. elim (stale.1 t k) [ ]),
        (λ k. (after ∙ (rw t refl), subst (λ ids. All (λ j. j ≢ id) ids) back (among.1 t))),
        sweep-stale (sweep r now timeout).0 now timeout ∙ sweep_again r now timeout,
      )
    ]
