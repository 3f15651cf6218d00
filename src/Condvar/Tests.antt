-- ===== src/Condvar/Tests.antt =====
-- Tests of condition variables, and the theorems at a concrete interleaving.
use spl.Prelude.{
  All, ℕ, ◌≤◌, ◌≡◌, ◌↔◌, refl, true, false, none, some, List, [], ◌∷◌, arith, if◌then◌else◌, ◌==◌,
}
use spl.Condvar.{
  Cv, Pc, outside, noted, relocking, Thread, WaitQueue, cv_init, cv_destroy_wakeup, destroy, enter,
  advance,
}
use spl.Condvar.Interleaving.{
  times, Queueing, System, wait, go_on, destroy_begins, destroy_returns, Reach, start, next,
}
use spl.Condvar.Destroying.{Done, Reach-cv_destroy_wakeup_iff, Reach-returned}
use spl.Condvar.Clock.{cv_timedwait_hires_common}

-- 1005 ns from now, rounded up to a resolution of 100 ns.
rounded_up : cv_timedwait_hires_common (λ us. us) 1005 100 true false 50000 50000 50100 ≡ some 1
unfolding cv_timedwait_hires_common
rounded_up = refl

without : ℕ → List ℕ → List ℕ
without i [] = []
without i (x ∷ xs) = if x == i then without i xs else x ∷ without i xs

rest : List ℕ → List ℕ
rest [] = []
rest (x ∷ xs) = xs

-- A queue in the order of the waits, of which wake_up takes the first.
abbrev queue : WaitQueue
queue = record {
  prepare_to_wait = λ i q. i ∷ without i q;
  finish_wait = without;
  wake_up = rest;
  wake_up_all = λ q. [];
}

times-without :
    (i : ℕ) (q : List ℕ) (j : ℕ) → times j (without i q) ≤ (if i == j then 0 else times j q)
unfolding without
times-without i [] j = ground arith
times-without i (x ∷ q) j = ground (arith, times-without i q j)

times-rest : (q : List ℕ) (j : ℕ) → times j (rest q) ≤ times j q
unfolding rest
times-rest [] j = omega arith
times-rest (x ∷ q) j = omega arith

queue-Queueing : Queueing queue
queue-Queueing = record {
  prepare_adds = λ i q j. ground (arith, times-without i q j);
  finish_takes = times-without;
  wake_adds_none = times-rest;
  wake_all_adds_none = λ q j. omega arith;
}

abbrev thread : Pc → Thread
thread p = record { id = 1; mp = 50; pc = p }

abbrev one_more : Pc × Cv → Pc × Cv
one_more s = advance queue (thread s.0) s.1

abbrev entered : Pc × Cv
entered = (noted, enter cv_init)

-- The wait of the thread up to where it sleeps, and on to its end, with cv_destroy in between.
abbrev sleeping : Pc × Cv
sleeping = one_more (one_more (one_more (one_more (one_more entered))))

abbrev torn : Pc × Cv
torn = (sleeping.0, destroy sleeping.1)

abbrev ended : Pc × Cv
ended = one_more (one_more (one_more (one_more (one_more (one_more torn)))))

abbrev system : Pc × Cv → System
system s = record { cv = s.1; threads = thread s.0 ∷ []; returned = false }

abbrev Comes : Pc × Cv → Type 0
Comes s = Reach queue (thread outside ∷ []) (system s)

go : (s : Pc × Cv) → Comes s → Comes (one_more s)
go s h = next h (go_on [] [] (thread s.0) s.1 false)

entered-Comes : Comes entered
unfolding cv_init
entered-Comes = next (start (refl, tt)) (wait 50 [] [] (thread outside) cv_init false refl refl)

torn-Comes : Comes torn
unfolding cv_init enter advance
torn-Comes =
    next (go _ (go _ (go _ (go _ (go _ entered-Comes)))))
      (destroy_begins (thread sleeping.0 ∷ []) sleeping.1 refl)

ended-Comes : Comes ended
ended-Comes = go _ (go _ (go _ (go _ (go _ (go _ torn-Comes)))))

Reach-cv_destroy_wakeup_iff_example :
    (cv_destroy_wakeup torn.1 ≡ true) ↔ All Done (thread torn.0 ∷ [])
unfolding destroy
Reach-cv_destroy_wakeup_iff_example =
    Reach-cv_destroy_wakeup_iff queue queue-Queueing (omega arith) torn-Comes refl

-- The thread that waited has only its mutex to take, and cv_destroy returns.
returned : Reach queue (thread outside ∷ []) (record (system ended) { returned = true })
unfolding cv_init enter destroy advance cv_destroy_wakeup without
returned = next ended-Comes (destroy_returns (thread relocking ∷ []) ended.1 refl refl)

Reach-returned_example :
    All Done (thread ended.0 ∷ [])
    × (ended.1.cv_refs ≡ 0)
    × (ended.1.cv_waiters ≡ 0)
    × (ended.1.cv_mutex ≡ none)
    × (ended.1.cv_event ≡ [])
Reach-returned_example = Reach-returned queue queue-Queueing (omega arith) returned refl
