-- ===== src/Distributed/Master/Registry/Invariant.antt =====
-- What holds of the registry of src/distributed/master/registry.rs after any operations.
use strobengine.Prelude.{
  ℕ, ◌≡◌, refl, sym, ◌∙◌, inl, inr, List, [], ◌∷◌, arith, All, Option-cases, Bool-cases,
}
use strobengine.Prelude.Maps.{
  lookup, insert, adjust, DistinctKeys, Absent, insert-DistinctKeys, adjust-DistinctKeys,
}
use strobengine.Text.Utf8.{Bytes}
use strobengine.Text.Compare.{bytes_eq, same, same_iff}
use strobengine.Distributed.Master.Registry.{
  WorkerRecord, Registry, RegisterWorkerRequest, register, update_known, record_heartbeat,
  attach_commands, detach_commands, set_status, sweep, is_stale, evict, new_record, Op, registers,
  beats, attaches, detaches, sets, sweeps, apply, apply_all,
}

-- A record stands under its own id, and each id once.
pub record Inv (r : Registry) : Type 0 where
  pub distinct : DistinctKeys r
  pub own_key : All (λ p. p.1.worker_id ≡ p.0) r

abbrev OwnKey : Registry → Type 0
OwnKey = All (λ p. p.1.worker_id ≡ p.0)

insert-OwnKey :
    (id : Bytes) (w : WorkerRecord) (r : Registry)
    → w.worker_id ≡ id
    → OwnKey r
    → OwnKey (insert id w r)
unfolding insert
insert-OwnKey id w [] e h = (e, tt)
insert-OwnKey id w ((j, v) ∷ r) e h = elim (Bool-cases (same j id)) [
  | inl t ↦ rw (t, insert) (e ∙ sym ((same_iff j id).0 t), h.1)
  | inr t ↦ rw (t, insert) (h.0, insert-OwnKey id w r e h.1)
]

adjust-OwnKey :
    (id : Bytes) (change : WorkerRecord → WorkerRecord) (r : Registry)
    → ((w : WorkerRecord) → (change w).worker_id ≡ w.worker_id)
    → OwnKey r
    → OwnKey (adjust id change r)
unfolding adjust
adjust-OwnKey id change [] k h = tt
adjust-OwnKey id change ((j, v) ∷ r) k h = elim (Bool-cases (same j id)) [
  | inl t ↦ rw (t, adjust) (k v ∙ h.0, h.1)
  | inr t ↦ rw (t, adjust) (h.0, adjust-OwnKey id change r k h.1)
]

adjust-Inv :
    (id : Bytes) (change : WorkerRecord → WorkerRecord) (r : Registry)
    → ((w : WorkerRecord) → (change w).worker_id ≡ w.worker_id)
    → Inv r
    → Inv (adjust id change r)
adjust-Inv id change r k v = record {
  distinct = adjust-DistinctKeys id change r v.distinct;
  own_key = adjust-OwnKey id change r k v.own_key;
}

update_known-Inv :
    (r : Registry) (id : Bytes) (change : WorkerRecord → WorkerRecord)
    → ((w : WorkerRecord) → (change w).worker_id ≡ w.worker_id)
    → Inv r
    → Inv (update_known r id change).0
unfolding update_known
update_known-Inv r id change k v = elim (Option-cases (lookup id r)) [
  | inl e ↦ rw (e, update_known) v
  | inr (w, e) ↦ rw (e, update_known) (adjust-Inv id change r k v)
]

register-Inv :
    (r : Registry) (request : RegisterWorkerRequest) (now : ℕ)
    → Inv r
    → Inv (register r request now).0
unfolding register new_record
register-Inv r request now v = ground (
  arith,
  insert-DistinctKeys request.worker_id (new_record request now) r v.distinct,
  insert-OwnKey request.worker_id (new_record request now) r refl v.own_key,
)

sweep-Absent :
    (id : Bytes) (r : Registry) (now timeout : ℕ) → Absent id r → Absent id (sweep r now timeout).0
unfolding sweep
sweep-Absent id [] now timeout a = tt
sweep-Absent id ((j, w) ∷ r) now timeout a = elim (Bool-cases (is_stale now timeout w)) [
  | inl e ↦ rw (e, sweep) (a.0, sweep-Absent id r now timeout a.1)
  | inr e ↦ rw (e, sweep) (a.0, sweep-Absent id r now timeout a.1)
]

sweep-Inv : (r : Registry) (now timeout : ℕ) → Inv r → Inv (sweep r now timeout).0
unfolding sweep evict
sweep-Inv [] now timeout v = v
sweep-Inv ((j, w) ∷ r) now timeout v =
    let rest =
      sweep-Inv r now timeout (record { distinct = v.distinct.1; own_key = v.own_key.1 }) in
    let absent = sweep-Absent j r now timeout v.distinct.0 in
    elim (Bool-cases (is_stale now timeout w)) [
      | inl e ↦
          rw (e, sweep)
            (record { distinct = (absent, rest.distinct); own_key = (v.own_key.0, rest.own_key) })
      | inr e ↦
          rw (e, sweep)
            (record { distinct = (absent, rest.distinct); own_key = (v.own_key.0, rest.own_key) })
    ]

apply-Inv : (r : Registry) (op : Op) → Inv r → Inv (apply r op)
unfolding apply record_heartbeat attach_commands detach_commands set_status
apply-Inv r (registers request now) v = register-Inv r request now v
apply-Inv r (beats id state vus run now) v = update_known-Inv r id _ (λ w. refl) v
apply-Inv r (attaches id tx) v = update_known-Inv r id _ (λ w. refl) v
apply-Inv r (detaches id) v = adjust-Inv id _ r (λ w. refl) v
apply-Inv r (sets id status) v = adjust-Inv id _ r (λ w. refl) v
apply-Inv r (sweeps now timeout) v = sweep-Inv r now timeout v

pub apply_all-Inv : (r : Registry) (ops : List Op) → Inv r → Inv (apply_all r ops)
unfolding apply_all
apply_all-Inv r [] v = v
apply_all-Inv r (op ∷ ops) v = apply_all-Inv (apply r op) ops (apply-Inv r op v)
