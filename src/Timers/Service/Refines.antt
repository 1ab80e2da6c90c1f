-- ===== src/Timers/Service/Refines.antt =====
-- A `TimerService` refines a table from identities to timers: any sequence of calls changes what it
-- holds as it would change the table.
use flare_db.Base.{
  ◌≡◌, refl, sym, subst, ap, ◌∙◌, true, Bool-cases, true≢false, Option, none, some, List, [], ◌∷◌,
  inl, inr, arith, if◌then◌else◌,
}
use flare_db.Base.Text.{str_eq→eq, str_eq_refl}
use flare_db.Timers.{Bytes, TimerKey, TimerEntry, storage_key}
use flare_db.Timers.Key.{IsStorable, storage_key→eq}
use flare_db.Timers.Kv.{
  done, and_then_done, done_eq, bytes_eq, bytes_eq→eq, bytes_eq_refl, written, KvStore, Serde,
}
use flare_db.Timers.Store
use flare_db.Timers.Store.View.{timers, timer_at, timer_at-upsert, timer_at-delete, timer_at-apply}
use flare_db.Timers.Store.Keyed.{
  IsStored, IsKeyed, upsert-IsStored, delete-IsStored, apply-IsStored,
}
use flare_db.Timers.Store.Keyed
use flare_db.Timers.Service.{
  TimerService, set, clear, apply, delete_all, deletes, take_due_processing_time,
}
use flare_db.Timers.Service.Removal.{has_key, deletes-IsKeyed}
use flare_db.Timers.Service.Take.{unless_due, take_table, timer_at-deletes}
use flare_db.Timers.Service.Table.{
  key_eq, Table, Change, put, remove, Op, set_timer, clear_timer, apply_batch, delete_timers,
  take_due, change, change_all, remove_all, spec, replay, AllStorable, AllChangesStorable,
  IsStorableOp, AllOpsStorable, nothing, one, pending_of, perform, run,
}

pending_of-IsKeyed : (cs : List Change) → AllChangesStorable cs → IsKeyed (pending_of cs)
pending_of-IsKeyed _ nothing = Keyed.nothing
pending_of-IsKeyed _ (one (put e) cs fits rest) =
    Keyed.entry e (pending_of cs) fits (pending_of-IsKeyed cs rest)
pending_of-IsKeyed _ (one (remove k) cs fits rest) =
    Keyed.removal (storage_key k) (pending_of cs) (pending_of-IsKeyed cs rest)

key_eq→eq : (j k : TimerKey) → key_eq j k ≡ true → j ≡ k
unfolding key_eq
key_eq→eq j k h = λ i. record {
  transform_id = str_eq→eq j.transform_id k.transform_id (ground arith) i;
  timer_family_id = str_eq→eq j.timer_family_id k.timer_family_id (ground arith) i;
  tag = str_eq→eq j.tag k.tag (ground arith) i;
  window = str_eq→eq j.window k.window (ground arith) i;
  user_key = bytes_eq→eq j.user_key k.user_key (ground arith) i;
}

key_eq_refl : (k : TimerKey) → key_eq k k ≡ true
unfolding key_eq
key_eq_refl k =
    rw
      (
        str_eq_refl k.transform_id,
        str_eq_refl k.timer_family_id,
        str_eq_refl k.tag,
        str_eq_refl k.window,
        bytes_eq_refl k.user_key,
      )
      refl

-- Storage keys are equal just where the identities are.
bytes_eq-storage_key :
    (j k : TimerKey)
    → IsStorable j
    → IsStorable k
    → bytes_eq (storage_key j) (storage_key k) ≡ key_eq j k
bytes_eq-storage_key j k fj fk = elim (Bool-cases (bytes_eq (storage_key j) (storage_key k))) [
  | inl t ↦
      let same = storage_key→eq j k fj fk (bytes_eq→eq (storage_key j) (storage_key k) t) in
      t ∙ sym (key_eq_refl j) ∙ ap (key_eq j) same
  | inr f ↦ elim (Bool-cases (key_eq j k)) [
    | inl t ↦
        let same = key_eq→eq j k t in
        absurd (
          true≢false _ (bytes_eq_refl (storage_key j))
            (ap (λ x. bytes_eq (storage_key j) (storage_key x)) same ∙ f))
    | inr g ↦ f ∙ sym g
  ]
]

has_key-remove_all :
    (es : List TimerEntry) (t : Table) (j : TimerKey)
    → AllStorable es
    → IsStorable j
    → (if has_key es (storage_key j) then none else t j) ≡ remove_all es t j
unfolding has_key remove_all
has_key-remove_all _ t j nothing fj = refl
has_key-remove_all _ t j (one e es fits rest) fj =
    rw (bytes_eq-storage_key e.key j fits fj) (ground (arith, has_key-remove_all es t j rest fj))

written-pending_of :
    (cs : List Change) (f : Bytes → Option TimerEntry) (t : Table)
    → AllChangesStorable cs
    → ((j : TimerKey) → IsStorable j → f (storage_key j) ≡ t j)
    → (j : TimerKey) → IsStorable j
    → written (pending_of cs) f (storage_key j) ≡ change_all cs t j
unfolding written change_all change
written-pending_of _ f t nothing h j fj = h j fj
written-pending_of _ f t (one (put e) cs fits rest) h j fj =
    written-pending_of cs (λ k. if bytes_eq (storage_key e.key) k then some e else f k)
      (change (put e) t) rest
      (λ x fx i. if bytes_eq-storage_key e.key x fits fx i then some e else h x fx i) j fj
written-pending_of _ f t (one (remove r) cs fits rest) h j fj =
    written-pending_of cs (λ k. if bytes_eq (storage_key r) k then none else f k)
      (change (remove r) t) rest
      (λ x fx i. if bytes_eq-storage_key r x fits fx i then none else h x fx i) j fj

module _ (serde : Serde) (store : KvStore serde.Blob) where
  -- A service whose cells read back, and that holds the timers of a table.
  pub record HoldsTable (s : TimerService store.Kv) (t : Table) : Type 0 where
    pub stored : IsStored serde store s.store
    pub same : (j : TimerKey) → IsStorable j → timers serde store s.store j ≡ t j

  set_holds :
      (s s' : TimerService store.Kv) (e : TimerEntry) (t : Table)
      → IsStorable e.key
      → HoldsTable s t
      → set serde store s e ≡ done s'
      → HoldsTable s' (change (put e) t)
  unfolding set change timers
  set_holds s s' e t fits h p =
      let kv = and_then_done (Store.upsert serde store s.store e) _ s' p in
      subst (λ x. HoldsTable x (change (put e) t)) (done_eq _ _ kv.2)
        (record {
          stored = upsert-IsStored serde store s.store kv.0 e fits h.stored kv.1;
          same = λ j fj.
              timer_at-upsert serde store s.store kv.0 e kv.1 (storage_key j)
              ∙ (λ i. if bytes_eq-storage_key e.key j fits fj i then some e else h.same j fj i);
        })

  clear_holds :
      (s s' : TimerService store.Kv) (k : TimerKey) (t : Table)
      → IsStorable k
      → HoldsTable s t
      → clear serde store s k ≡ done s'
      → HoldsTable s' (change (remove k) t)
  unfolding clear change timers
  clear_holds s s' k t fits h p =
      let kv = and_then_done (Store.delete serde store s.store (storage_key k)) _ s' p in
      subst (λ x. HoldsTable x (change (remove k) t)) (done_eq _ _ kv.2)
        (record {
          stored = delete-IsStored serde store s.store kv.0 (storage_key k) h.stored kv.1;
          same = λ j fj.
              timer_at-delete serde store s.store kv.0 (storage_key k) kv.1 (storage_key j)
              ∙ (λ i. if bytes_eq-storage_key k j fits fj i then none else h.same j fj i);
        })

  apply_holds :
      (s s' : TimerService store.Kv) (cs : List Change) (t : Table)
      → AllChangesStorable cs
      → HoldsTable s t
      → apply serde store s (pending_of cs) ≡ done s'
      → HoldsTable s' (change_all cs t)
  unfolding apply timers
  apply_holds s s' cs t fits h p =
      let kv = and_then_done (Store.apply serde store s.store (pending_of cs)) _ s' p in
      subst (λ x. HoldsTable x (change_all cs t)) (done_eq _ _ kv.2)
        (record {
          stored =
              apply-IsStored serde store s.store kv.0 (pending_of cs) (pending_of-IsKeyed cs fits)
                h.stored kv.1;
          same = λ j fj.
              timer_at-apply serde store s.store kv.0 (pending_of cs) kv.1 (storage_key j)
              ∙ written-pending_of cs (timer_at serde store s.store) t fits h.same j fj;
        })

  delete_all_holds :
      (s s' : TimerService store.Kv) (es : List TimerEntry) (t : Table)
      → AllStorable es
      → HoldsTable s t
      → delete_all serde store s es ≡ done s'
      → HoldsTable s' (remove_all es t)
  unfolding delete_all timers remove_all
  delete_all_holds s s' [] t fits h p = subst (λ x. HoldsTable x t) (done_eq _ _ p) h
  delete_all_holds s s' (e ∷ es) t fits h p =
      let kv = and_then_done (Store.apply serde store s.store (deletes (e ∷ es))) _ s' p in
      subst (λ x. HoldsTable x (remove_all (e ∷ es) t)) (done_eq _ _ kv.2)
        (record {
          stored =
              apply-IsStored serde store s.store kv.0 (deletes (e ∷ es)) (deletes-IsKeyed (e ∷ es))
                h.stored kv.1;
          same = λ j fj.
              timer_at-deletes serde store s.store kv.0 (e ∷ es) kv.1 (storage_key j)
              ∙ (λ i. if has_key (e ∷ es) (storage_key j) then none else h.same j fj i)
              ∙ has_key-remove_all (e ∷ es) t j fits fj;
        })

  perform_holds :
      (s s' : TimerService store.Kv) (op : Op) (t : Table)
      → IsStorableOp op
      → HoldsTable s t
      → perform serde store s op ≡ done s'
      → HoldsTable s' (spec op t)
  unfolding perform spec
  perform_holds s s' (set_timer e) t fits h p = set_holds s s' e t fits h p
  perform_holds s s' (clear_timer k) t fits h p = clear_holds s s' k t fits h p
  perform_holds s s' (apply_batch cs) t fits h p = apply_holds s s' cs t fits h p
  perform_holds s s' (delete_timers es) t fits h p = delete_all_holds s s' es t fits h p
  perform_holds s s' (take_due time) t fits h p =
      let taken = and_then_done (take_due_processing_time serde store s time) _ s' p in
      let table = take_table serde store s taken.0.1 time taken.0.0 h.stored taken.1 in
      subst (λ x. HoldsTable x (spec (take_due time) t)) (done_eq _ _ taken.2)
        (record { stored = table.0; same = λ j fj. table.1 j ∙ ap (unless_due time) (h.same j fj) })

  -- From a service that holds the timers of a table, any calls that all succeed end in one that holds
  -- the timers of the table after the same calls, for identities whose parts have lengths that a u32
  -- holds.
  pub run_refines :
      (ops : List Op) (s s' : TimerService store.Kv) (t : Table)
      → AllOpsStorable ops
      → HoldsTable s t
      → run serde store s ops ≡ done s'
      → HoldsTable s' (replay ops t)
  unfolding run replay
  run_refines _ s s' t nothing h p = subst (λ x. HoldsTable x t) (done_eq _ _ p) h
  run_refines _ s s' t (one op ops fits rest) h p =
      let next = and_then_done (perform serde store s op) _ s' p in
      run_refines ops next.0 s' (spec op t) rest (perform_holds s next.0 op t fits h next.1) next.2
