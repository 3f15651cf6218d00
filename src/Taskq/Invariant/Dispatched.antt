-- ===== src/Taskq/Invariant/Dispatched.antt =====
-- taskq_dispatch, taskq_dispatch_delay and taskq_dispatch_ent under the invariant.
use spl.Prelude.{
  ℕ, ◌≡◌, refl, ◌≢◌, ◌⊎◌, inl, inr, Bool, true, false, not, ◌&&◌, ◌||◌, [], ◌∷◌, ◌++◌, Option, none,
  some, ◌==◌, arith, if_elim,
}
use spl.Ordered.Laws.{count-append}
use spl.Taskq.{Ent, ent_id, Taskq, DispatchFlags, World, succ_id}
use spl.Taskq.Alloc.{task_alloc}
use spl.Taskq.Dispatch.{
  spawn_if_full, noqueue_room, dispatch_queue, dispatch_alloc, dispatch_body, taskq_dispatch,
  delay_queue, delay_body, taskq_dispatch_delay, ent_queue, taskq_dispatch_ent,
}
use spl.Taskq.Invariant.{Inv, outstanding, SameQueues, Inv-same}
use spl.Taskq.Invariant.Live.{IsLive, Keeps, IsLive-same, task_alloc-IsLive}
use spl.Taskq.Invariant.Moves.{pend-Inv, prio-Inv, delay-Inv, taskq_thread_spawn-SameQueues}

-- What a dispatch returns: an id of a task that is now outstanding, or 0.
abbrev pub Dispatched : ℕ × Taskq → Type 0
Dispatched (rc, q) = Inv q × ((rc ≡ 0) ⊎ ((rc ≢ 0) × (outstanding q rc ≡ 1)))

-- What becomes of a caller's own entry: it is queued under its id, or it is not (marked invalid by
-- an inactive queue, left as it was for want of an idle thread) and no id has been given out.
abbrev pub EntDispatched : Taskq → Ent → Ent × Taskq → Type 0
EntDispatched tq t (t', q) =
    Inv q
    × (((t'.id ≡ tq.next_id) × (t'.prealloc ≡ true) × (outstanding q t'.id ≡ 1))
        ⊎ (((t'.id ≡ 0) ⊎ (t' ≡ t)) × (q.next_id ≡ tq.next_id)))

-- An entry has been queued under this id.
abbrev Queued : ℕ → Taskq → Type 0
Queued i q = Inv q × (outstanding q i ≡ 1)

module _ (w : World) (fl : DispatchFlags) (keeps : Keeps w) where
  pub spawn_if_full-SameQueues : (tq : Taskq) → SameQueues (spawn_if_full w tq) tq
  unfolding spawn_if_full
  spawn_if_full-SameQueues tq = ground (arith, taskq_thread_spawn-SameQueues w tq)

  Dispatched-spawn :
      (rc : ℕ) (tq : Taskq) → Dispatched (rc, tq) → Dispatched (rc, spawn_if_full w tq)
  Dispatched-spawn rc tq (v, r) =
      let s = spawn_if_full-SameQueues tq in
      (Inv-same s v, rw (s.same_pend, s.same_prio, s.same_delay, s.same_active) r)

  pend-Queued :
      (q : Taskq) (t : Ent)
      → IsLive q
      → t.id ≡ q.next_id
      → Queued q.next_id
          (record q { pend_list = q.pend_list ++ t ∷ []; next_id = succ_id q.next_id })
  pend-Queued q t v e = (
    pend-Inv q t v.inv e v.id_left,
    ground
        (arith, count-append ent_id q.next_id q.pend_list (t ∷ []), v.inv.ledger.under q.next_id),
  )

  prio-Queued :
      (q : Taskq) (t : Ent)
      → IsLive q
      → t.id ≡ q.next_id
      → Queued q.next_id
          (record q { prio_list = q.prio_list ++ t ∷ []; next_id = succ_id q.next_id })
  prio-Queued q t v e = (
    prio-Inv q t v.inv e v.id_left,
    ground
        (arith, count-append ent_id q.next_id q.prio_list (t ∷ []), v.inv.ledger.under q.next_id),
  )

  delay-Queued :
      (q : Taskq) (t : Ent)
      → IsLive q
      → t.id ≡ q.next_id
      → Queued q.next_id
          (record q { delay_list = q.delay_list ++ t ∷ []; next_id = succ_id q.next_id })
  delay-Queued q t v e = (
    delay-Inv q t v.inv e v.id_left,
    ground
        (arith, count-append ent_id q.next_id q.delay_list (t ∷ []), v.inv.ledger.under q.next_id),
  )

  dispatch_queue-Queued :
      (q : Taskq) (func arg : ℕ) (e : Ent)
      → fl.noqueue ≡ false
      → IsLive q
      → Queued q.next_id (dispatch_queue w q func arg fl e)
  unfolding dispatch_queue
  dispatch_queue-Queued q func arg e n v =
      if_elim (Queued q.next_id) fl.noqueue _ _ (λ h. cc)
        λ _.
          if_elim (Queued q.next_id) fl.front _ _ (λ _. prio-Queued q _ v refl)
            (λ _. pend-Queued q _ v refl)

  dispatch_alloc-Dispatched :
      (tq : Taskq) (func arg : ℕ)
      → fl.noqueue ≡ false
      → IsLive tq
      → Dispatched (dispatch_alloc w tq func arg fl)
  unfolding dispatch_alloc
  dispatch_alloc-Dispatched tq func arg n v = go r.0
    where
      r : Option Ent × Taskq
      r = task_alloc w tq fl

      live : IsLive r.1
      live = task_alloc-IsLive w fl keeps tq v

      go :
          (t : Option Ent)
          → Dispatched (elim t [
            | none ↦ (0, r.1)
            | some e ↦ (r.1.next_id, dispatch_queue w r.1 func arg fl e)
          ])
      go none = (live.inv, inl refl)
      go (some e) =
          let (i, o) = dispatch_queue-Queued r.1 func arg e n live in
          (i, inr (λ z. omega (arith, live.inv.ledger.next_pos), o))

  noqueue_room_none : (tq : Taskq) → fl.noqueue ≡ false → noqueue_room w tq fl ≡ (true, tq)
  unfolding noqueue_room
  noqueue_room_none tq n = rw n

  dispatch_body-Dispatched :
      (tq : Taskq) (func arg : ℕ)
      → fl.noqueue ≡ false
      → IsLive tq
      → Dispatched (dispatch_body w tq func arg fl)
  unfolding dispatch_body
  dispatch_body-Dispatched tq func arg n v =
      if_elim Dispatched (not tq.is_active) _ _ (λ _. (v.inv, inl refl))
        λ _. rw (noqueue_room_none tq n) (dispatch_alloc-Dispatched tq func arg n v)

  -- taskq_dispatch without TQ_NOQUEUE, on a queue that meets the invariant and has an id left, keeps
  -- the invariant, provided that what other threads do while it waits for an entry does. It returns
  -- 0, or an id that is now outstanding once.
  pub taskq_dispatch-Dispatched :
      (tq : Taskq) (func arg : ℕ)
      → fl.noqueue ≡ false
      → IsLive tq
      → Dispatched (taskq_dispatch w tq func arg fl)
  unfolding taskq_dispatch
  taskq_dispatch-Dispatched tq func arg n v =
      let (rc, q) = dispatch_body w tq func arg fl in
      if_elim (λ x. Dispatched (rc, x)) fl.noqueue _ _ (λ h. cc)
        (λ _. Dispatched-spawn rc q (dispatch_body-Dispatched tq func arg n v))

  delay_body-Dispatched :
      (tq : Taskq) (func arg expire_time : ℕ)
      → IsLive tq
      → Dispatched (delay_body w tq func arg fl expire_time)
  unfolding delay_body delay_queue
  delay_body-Dispatched tq func arg expire_time v =
      if_elim Dispatched (not tq.is_active) _ _ (λ _. (v.inv, inl refl)) (λ _. go r.0)
    where
      r : Option Ent × Taskq
      r = task_alloc w tq fl

      live : IsLive r.1
      live = task_alloc-IsLive w fl keeps tq v

      go :
          (t : Option Ent)
          → Dispatched (elim t [
            | none ↦ (0, r.1)
            | some e ↦ (r.1.next_id, delay_queue r.1 func arg expire_time e)
          ])
      go none = (live.inv, inl refl)
      go (some e) =
          let new : Queued r.1.next_id (delay_queue r.1 func arg expire_time e) =
            delay-Queued r.1 _ live refl in
          (new.0, inr (λ z. omega (arith, live.inv.ledger.next_pos), new.1))

  -- taskq_dispatch_delay, with any flags, on a queue that meets the invariant and has an id left,
  -- keeps the invariant, provided that what other threads do while it waits for an entry does. It
  -- returns 0, or an id that is now outstanding once.
  pub taskq_dispatch_delay-Dispatched :
      (tq : Taskq) (func arg expire_time : ℕ)
      → IsLive tq
      → Dispatched (taskq_dispatch_delay w tq func arg fl expire_time)
  unfolding taskq_dispatch_delay
  taskq_dispatch_delay-Dispatched tq func arg expire_time v =
      let (rc, q) = delay_body w tq func arg fl expire_time in
      Dispatched-spawn rc q (delay_body-Dispatched tq func arg expire_time v)

  pub noqueue_room-SameQueues : (tq : Taskq) → SameQueues (noqueue_room w tq fl).1 tq
  unfolding noqueue_room
  noqueue_room-SameQueues tq = ground (arith, taskq_thread_spawn-SameQueues w tq)

  -- taskq_dispatch_ent, with any flags, on a queue that meets the invariant and has an id left,
  -- keeps the invariant. The entry is marked preallocated and outstanding once under the next id, or
  -- no id is given out and the entry has id 0 or is as it was.
  pub taskq_dispatch_ent-EntDispatched :
      (tq : Taskq) (func arg : ℕ) (t : Ent)
      → IsLive tq
      → EntDispatched tq t (taskq_dispatch_ent w tq func arg fl t)
  unfolding taskq_dispatch_ent ent_queue
  taskq_dispatch_ent-EntDispatched tq func arg t v =
      let s = spawn_if_full-SameQueues tq in
      if_elim (EntDispatched tq t) (not tq.is_active) _ _
        (λ _. (Inv-same s v.inv, inr (inl refl, s.same_next)))
        λ _.
          if_elim (EntDispatched tq t) room _ _ queued
            (λ _. (live.inv, inr (inr refl, same.same_next)))
    where
      room : Bool
      room = (noqueue_room w tq fl).0

      q : Taskq
      q = (noqueue_room w tq fl).1

      same : SameQueues q tq
      same = noqueue_room-SameQueues tq

      live : IsLive q
      live = IsLive-same same v

      front : Bool
      front = fl.front || (fl.noqueue && tq.nactive == tq.nthreads)

      r : Ent × Taskq
      r = ent_queue w q func arg front t

      new : Queued q.next_id r.1
      new =
          if_elim (Queued q.next_id) front _ _ (λ _. prio-Queued q _ live refl)
            (λ _. pend-Queued q _ live refl)

      queued : room ≡ true → EntDispatched tq t (r.0, spawn_if_full w r.1)
      queued _ =
          let s = spawn_if_full-SameQueues r.1 in
          (
            Inv-same s new.0,
            inl (
              same.same_next,
              refl,
              rw (s.same_pend, s.same_prio, s.same_delay, s.same_active) new.1,
            ),
          )
