-- ===== src/Taskq/Kick.antt =====
-- The tunable spl_taskq_kick, which gives a thread to each queue whose next task has waited for long.
use spl.Prelude.{
  All, ℕ, ◌+◌, ◌*◌, ◌%◌, ◌^◌, Bool, Option, none, some, List, [], ◌∷◌, ◌==◌, if◌then◌else◌, if_elim,
}
use spl.Taskq.{Ent, Taskq, World}
use spl.Taskq.Find.{Place, taskq_next_ent}
use spl.Taskq.Spawn.{taskq_thread_spawn}
use spl.Taskq.Invariant.{Inv, Inv-same}
use spl.Taskq.Invariant.Moves.{taskq_thread_spawn-SameQueues}

-- The queues, in the order of tq_list, and the tunable.
pub record Queues : Type 0 where
  pub kick : ℕ
  pub queues : List Taskq

-- `time_after` is the kernel's comparison of times, and `hz` is HZ.
unfoldable pub kick_next :
    World → (time_after : ℕ → ℕ → Bool) (hz : ℕ) → Option (Place × Ent) → Taskq → Taskq
kick_next w time_after hz none tq = tq
kick_next w time_after hz (some (p, t)) tq =
    if time_after w.jiffies ((t.birth + 5 * hz) % 2 ^ 64) then (taskq_thread_spawn w tq).1 else tq

unfoldable pub kick_all : World → (time_after : ℕ → ℕ → Bool) (hz : ℕ) → List Taskq → List Taskq
unfolding kick_next
kick_all w time_after hz [] = []
kick_all w time_after hz (tq ∷ tqs) =
    kick_next w time_after hz (taskq_next_ent tq) tq ∷ kick_all w time_after hz tqs

-- `param_set_uint` parses the value; `none` is an error, and leaves the tunable. Its code is returned.
unfoldable pub param_set_taskq_kick :
    World → (time_after : ℕ → ℕ → Bool) (hz : ℕ) → Option ℕ → Queues → Queues
unfolding kick_all
param_set_taskq_kick w time_after hz none s = s
param_set_taskq_kick w time_after hz (some value) s =
    if value == 0
    then record s { kick = 0 }
    else record { kick = 0; queues = kick_all w time_after hz s.queues }

kick_next-Inv :
    (w : World) (time_after : ℕ → ℕ → Bool) (hz : ℕ) (o : Option (Place × Ent)) (tq : Taskq)
    → Inv tq
    → Inv (kick_next w time_after hz o tq)
unfolding kick_next
kick_next-Inv w time_after hz none tq i = i
kick_next-Inv w time_after hz (some (p, t)) tq i =
    if_elim Inv (time_after w.jiffies ((t.birth + 5 * hz) % 2 ^ 64)) _ _
      (λ h. Inv-same (taskq_thread_spawn-SameQueues w tq) i) (λ h. i)

-- Kicking keeps the invariant of every queue.
pub kick_all-Inv :
    (w : World) (time_after : ℕ → ℕ → Bool) (hz : ℕ) (tqs : List Taskq)
    → All Inv tqs
    → All Inv (kick_all w time_after hz tqs)
unfolding kick_all
kick_all-Inv w time_after hz [] h = tt
kick_all-Inv w time_after hz (tq ∷ tqs) (i, h) =
    (kick_next-Inv w time_after hz (taskq_next_ent tq) tq i, kick_all-Inv w time_after hz tqs h)
