-- ===== src/Condvar/Clock.antt =====
-- The times of cv_timedwait and cv_timedwait_hires: ticks of jiffies and nanoseconds, not negative.
-- `none` is the result -1, that the time is over.
use native.Mathlib.Nat.{div-add-mod', mod-lt, mul-mod_left}
use spl.Prelude.{
  ℕ, ◌+◌, ◌-◌, ◌*◌, ◌/◌, ◌%◌, ◌≤◌, ◌<◌, ◌≡◌, Bool, true, false, Option, none, some, arith, ltb, leb,
  if◌then◌else◌, lt→ltb,
}

-- expire_time - jiffies, where the wait does not begin when nothing is left.
unfoldable pub time_left : (expire_time now : ℕ) → Option ℕ
time_left expire_time now = if leb expire_time now then none else some (expire_time - now)

-- What schedule_timeout or spl_io_schedule_timeout leaves of the time is the result, if it is not 0.
unfoldable pub left_after : (left : ℕ) → Option ℕ
left_after left = if ltb 0 left then some left else none

unfoldable pub __cv_timedwait_common :
    (schedule_timeout : ℕ → ℕ) (expire_time jiffies : ℕ) → Option ℕ
unfolding time_left left_after
__cv_timedwait_common schedule_timeout expire_time jiffies = elim (time_left expire_time jiffies) [
  | none ↦ none
  | some left ↦ left_after (schedule_timeout left)
]

-- spl_io_schedule_timeout with a timer, where jiffies are `now` before it and `later` after it.
unfoldable pub spl_io_schedule_timeout : (now later left : ℕ) → ℕ
spl_io_schedule_timeout now later left = now + left - later

-- `usecs_to_jiffies` is the kernel's, of NSEC_TO_TICK. The clock is read again after the wait.
unfoldable pub __cv_timedwait_hires :
    (usecs_to_jiffies : ℕ → ℕ) (expire_time before after : ℕ) → Option ℕ
unfolding time_left
__cv_timedwait_hires usecs_to_jiffies expire_time before after =
    elim (time_left expire_time before) [
      | none ↦ none
      | some left ↦ elim (time_left expire_time after) [
        | none ↦ none
        | some rest ↦ some (usecs_to_jiffies (rest / 1000))
      ]
    ]

-- The time that cv_timedwait_hires_common waits for: aligned to the resolution, and absolute.
unfoldable pub aligned : (roundup : Bool) (tim res : ℕ) → ℕ
aligned roundup tim res =
    if ltb 1 res then (if roundup then tim + (res - 1) else tim) / res * res else tim

unfoldable pub cv_timedwait_hires_common :
    (usecs_to_jiffies : ℕ → ℕ) (tim res : ℕ) (roundup absolute : Bool) (now before after : ℕ)
    → Option ℕ
unfolding aligned __cv_timedwait_hires
cv_timedwait_hires_common usecs_to_jiffies tim res roundup absolute now before after =
    let t = aligned roundup tim res in
    __cv_timedwait_hires usecs_to_jiffies (if absolute then t else t + now) before after

-- An aligned time is a multiple of the resolution, the next one from the time on when rounding up,
-- and else the last one up to it.
pub record Aligned (roundup : Bool) (tim res t : ℕ) : Type 0 where
  pub multiple : t % res ≡ 0
  pub not_before : roundup ≡ true → (tim ≤ t) × (t < tim + res)
  pub not_after : roundup ≡ false → (t ≤ tim) × (tim < t + res)

pub aligned_lem :
    (roundup : Bool) (tim res : ℕ) → 1 < res → Aligned roundup tim res (aligned roundup tim res)
unfolding aligned
aligned_lem true tim res h = rw (lt→ltb 1 res h) (
    let e = div-add-mod' (tim + (res - 1)) res in
    let l = mod-lt (tim + (res - 1)) (let r : 0 < res = omega arith in r) in
    record {
      multiple = mul-mod_left ((tim + (res - 1)) / res) res;
      not_before = λ r. (omega arith, omega arith);
      not_after = λ r. cc;
    })
aligned_lem false tim res h = rw (lt→ltb 1 res h) (
    let e = div-add-mod' tim res in
    let l = mod-lt tim (let r : 0 < res = omega arith in r) in
    record {
      multiple = mul-mod_left (tim / res) res;
      not_before = λ r. cc;
      not_after = λ r. (omega arith, omega arith);
    })

-- The result is never 0, and never more ticks than were left, if schedule_timeout leaves no more.
pub __cv_timedwait_common-left :
    (schedule_timeout : ℕ → ℕ) (expire_time jiffies left : ℕ)
    → ((n : ℕ) → schedule_timeout n ≤ n)
    → __cv_timedwait_common schedule_timeout expire_time jiffies ≡ some left
    → (0 < left) × (jiffies + left ≤ expire_time)
unfolding __cv_timedwait_common
__cv_timedwait_common-left schedule_timeout expire_time jiffies left h e =
    ground (arith, h (expire_time - jiffies))
