-- ===== src/Distributed/Master/Registry/Health.antt =====
-- Liveness in src/distributed/master/registry.rs: when an evicted worker can be allocated again.
use strobengine.Prelude.{
  ℕ, ◌≡◌, ◌≢◌, refl, sym, subst, ap, ◌∙◌, inl, inr, true, false, List, [], ◌∷◌, none, some, arith,
  All, Option-cases, Bool-cases,
}
use strobengine.Prelude.Maps.{lookup, adjust, lookup-insert, lookup-adjust, Absent, DistinctKeys}
use strobengine.Text.Utf8.{Bytes}
use strobengine.Text.Compare.{bytes_eq, same, same_iff}
use strobengine.Distributed.Master.Registry.{
  WorkerRecord, Registry, RegisterWorkerRequest, register, update_known, record_heartbeat,
  attach_commands, detach_commands, set_status, command_sender, ids_where, is_allocatable,
  allocatable_workers, sweep, is_stale, evict, new_record, Op, registers, beats, attaches, detaches,
  sets, sweeps, apply, apply_all,
}
use strobengine.Distributed.Master.Registry.Invariant.{Inv, apply_all-Inv}
use strobengine.Distributed.Master.Registry.Sweeping.{lookup-sweep, Absent-ids}

adjust-sender :
    (r : Registry) (id j : Bytes) (change : WorkerRecord → WorkerRecord)
    → ((w : WorkerRecord) → same j id ≡ true → w.command_tx ≡ none → (change w).command_tx ≡ none)
    → command_sender r id ≡ none
    → command_sender (adjust j change r) id ≡ none
unfolding command_sender
adjust-sender r id j change k h = elim (Option-cases (lookup id r)) [
  | inl e ↦ ground (arith, lookup-adjust j id change r)
  | inr (w, e) ↦ elim (Bool-cases (same j id)) [
    | inl t ↦ ground (arith, lookup-adjust j id change r, k w t)
    | inr t ↦ ground (arith, lookup-adjust j id change r)
  ]
]

update_known-sender :
    (r : Registry) (id j : Bytes) (change : WorkerRecord → WorkerRecord)
    → ((w : WorkerRecord) → same j id ≡ true → w.command_tx ≡ none → (change w).command_tx ≡ none)
    → command_sender r id ≡ none
    → command_sender (update_known r j change).0 id ≡ none
unfolding update_known
update_known-sender r id j change k h = elim (Option-cases (lookup j r)) [
  | inl e ↦ rw (e, update_known) h
  | inr (w, e) ↦ rw (e, update_known) (adjust-sender r id j change k h)
]

register-sender :
    (r : Registry) (id : Bytes) (request : RegisterWorkerRequest) (now : ℕ)
    → command_sender r id ≡ none
    → command_sender (register r request now).0 id ≡ none
unfolding register command_sender new_record
register-sender r id request now h =
    ground (arith, lookup-insert request.worker_id id (new_record request now) r)

sweep-sender :
    (r : Registry) (id : Bytes) (now timeout : ℕ)
    → command_sender r id ≡ none
    → command_sender (sweep r now timeout).0 id ≡ none
unfolding command_sender evict
sweep-sender r id now timeout h = ground (arith, lookup-sweep id r now timeout)

-- The operation opens no command stream for the worker `id`.
abbrev pub OpensNone : Bytes → Op → Type 0
OpensNone id op = (tx : ℕ) → op ≢ attaches id tx

apply-sender :
    (r : Registry) (id : Bytes) (op : Op)
    → OpensNone id op
    → command_sender r id ≡ none
    → command_sender (apply r op) id ≡ none
unfolding apply record_heartbeat attach_commands detach_commands set_status
apply-sender r id (registers request now) o h = register-sender r id request now h
apply-sender r id (beats j state vus run now) o h = update_known-sender r id j _ (λ w t e. e) h
apply-sender r id (attaches j tx) o h =
    update_known-sender r id j _
      (λ w t e. absurd (o tx (ap (λ k. attaches k tx) ((same_iff j id).0 t)))) h
apply-sender r id (detaches j) o h = adjust-sender r id j _ (λ w t e. refl) h
apply-sender r id (sets j status) o h = adjust-sender r id j _ (λ w t e. e) h
apply-sender r id (sweeps now timeout) o h = sweep-sender r id now timeout h

apply_all-sender :
    (r : Registry) (id : Bytes) (ops : List Op)
    → All (OpensNone id) ops
    → command_sender r id ≡ none
    → command_sender (apply_all r ops) id ≡ none
unfolding apply_all
apply_all-sender r id [] o h = h
apply_all-sender r id (op ∷ ops) o h =
    apply_all-sender (apply r op) id ops o.1 (apply-sender r id op o.0 h)

same_self : (id : Bytes) → same id id ≡ true
same_self id = (same_iff id id).1 refl

not_allocatable :
    (r : Registry) (id : Bytes)
    → All (λ p. p.1.worker_id ≡ p.0) r
    → DistinctKeys r
    → command_sender r id ≡ none
    → All (λ j. j ≢ id) (ids_where is_allocatable r)
unfolding ids_where command_sender lookup
not_allocatable [] id o d h = tt
not_allocatable ((j, w) ∷ r) id o d h = elim (Bool-cases (same j id)) [
  | inl t ↦
      let e : j ≡ id = (same_iff j id).0 t in
      let off : is_allocatable w ≡ false = unfold is_allocatable in ground (arith, t, h) in
      rw (off, ids_where) (Absent-ids is_allocatable r id o.1 (subst (λ k. Absent k r) e d.0))
  | inr t ↦
      let ih = not_allocatable r id o.1 d.1 (ground (arith, t, h)) in
      let ne : j ≢ id = λ q. cc (t, (same_iff j id).1 q) in
      elim (Bool-cases (is_allocatable w)) [
        | inl a ↦ rw (a, ids_where) ((λ q. ne (sym o.0 ∙ q)), ih)
        | inr a ↦ rw (a, ids_where) ih
      ]
]

-- An evicted worker has no command channel, and whatever heartbeats, registrations or sweeps come
-- after, it is not allocatable until it opens a new command stream.
pub evicted-not_allocatable :
    (r : Registry) (id : Bytes) (ops : List Op) (now timeout : ℕ) {w : WorkerRecord}
    → Inv r
    → lookup id r ≡ some w
    → is_stale now timeout w ≡ true
    → All (OpensNone id) ops
    → All (λ j. j ≢ id) (allocatable_workers (apply_all (apply r (sweeps now timeout)) ops))
unfolding allocatable_workers
evicted-not_allocatable r id ops now timeout v e s o =
    let r' = apply r (sweeps now timeout) in
    let none_now : command_sender r' id ≡ none =
      unfold apply command_sender evict in ground (arith, lookup-sweep id r now timeout) in
    let u = apply_all-Inv r (sweeps now timeout ∷ ops) v in
    not_allocatable (apply_all r' ops) id (unfold apply_all in u.own_key)
      (unfold apply_all in u.distinct) (apply_all-sender r' id ops o none_now)
