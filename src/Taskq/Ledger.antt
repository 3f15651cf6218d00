-- ===== src/Taskq/Ledger.antt =====
-- The abstract view of a task queue: which ids are outstanding, the next id and the lowest one.
-- The waiting functions are about this view alone.
use spl.Prelude.{ℕ, ◌+◌, ◌≤◌, ◌<◌, ◌≡◌, ◌≢◌, ◌==◌, if◌then◌else◌, arith, inl, inr, Bool-cases}

-- `m` is the lowest outstanding id, or the next id if there is none.
pub record Least (total : ℕ → ℕ) (next m : ℕ) : Type 0 where
  pub le : (i : ℕ) → 0 < total i → m ≤ i
  pub le_next : m ≤ next
  pub hit : m ≢ next → 0 < total m

-- An id is outstanding at most once and only below the next id; zero never is.
pub record Ledger (total : ℕ → ℕ) (next lowest : ℕ) : Type 0 where
  pub once : (i : ℕ) → total i ≤ 1
  pub under : (i : ℕ) → next ≤ i → total i ≡ 0
  pub no_zero : total 0 ≡ 0
  pub next_pos : 0 < next
  pub least : Least total next lowest

module _ (total total' : ℕ → ℕ) where
  -- An id that moves between lists stays outstanding.
  pub Ledger-keep :
      (n l : ℕ) → ((i : ℕ) → total' i ≡ total i) → Ledger total n l → Ledger total' n l
  Ledger-keep n l e v = record {
    once = λ i. rw (e i) (v.once i);
    under = λ i h. rw (e i) (v.under i h);
    no_zero = rw (e 0) v.no_zero;
    next_pos = v.next_pos;
    least = record {
      le = λ i h. v.least.le i (rw (e i) at h);
      le_next = v.least.le_next;
      hit = λ h. rw (e l) (v.least.hit h);
    };
  }

  -- A dispatched task takes the next id.
  pub Ledger-add :
      (n n' l : ℕ)
      → ((i : ℕ) → total' i ≡ (if n == i then 1 else 0) + total i)
      → n' ≡ n + 1
      → Ledger total n l
      → Ledger total' n' l
  Ledger-add n n' l e s v = record {
    once = λ i. ground (arith, e i, v.once i, v.under i);
    under = λ i h. ground (arith, e i, v.under i);
    no_zero = ground (arith, e 0, v.no_zero, v.next_pos);
    next_pos = omega arith;
    least = record {
      le = λ i h. ground (arith, e i, v.least.le i, v.least.le_next);
      le_next = omega (arith, v.least.le_next);
      hit = λ h. ground (arith, e l, v.least.hit, v.least.le_next);
    };
  }

  -- A task that is done or canceled is outstanding no more. The lowest id is computed anew if it
  -- was this one, and is then higher.
  pub Ledger-drop :
      (n l j m : ℕ)
      → ((i : ℕ) → total i ≡ (if j == i then 1 else 0) + total' i)
      → Least total' n m
      → Ledger total n l
      → Ledger total' n (if l == j then m else l)
  Ledger-drop n l j m e q v = record {
    once = λ i. ground (arith, e i, v.once i);
    under = λ i h. ground (arith, e i, v.under i h);
    no_zero = ground (arith, e 0, v.no_zero);
    next_pos = v.next_pos;
    least = elim (Bool-cases (l == j)) [
      | inl h ↦ rw h q
      | inr h ↦ rw h (record {
        le = λ i k. ground (arith, e i, v.least.le i);
        le_next = v.least.le_next;
        hit = λ k. ground (arith, e l, v.least.hit k);
      })
    ];
  }

  pub Ledger-drop_higher :
      (n l j m : ℕ)
      → ((i : ℕ) → total i ≡ (if j == i then 1 else 0) + total' i)
      → Least total' n m
      → Ledger total n l
      → l ≡ j
      → j < m
  Ledger-drop_higher n l j m e q v h =
      ground (arith, e j, e m, v.under j, q.hit, q.le_next, v.least.le m, v.once j)
