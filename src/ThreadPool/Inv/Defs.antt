-- ===== src/ThreadPool/Inv/Defs.antt =====
-- The invariant: `Rep` is about the shared fields, `Threads` about where the threads stand.
use tdm.Base.{ℕ, ◌≤◌, ◌<◌, ◌≡◌, ◌⊎◌, Bool, true, false, some, List, ◌++◌, length}
use tdm.Chain.{Ptr, node, Heap, has, contents, Holds}
use tdm.ThreadPool.{
  Bytes, Pc, add_wait, work_wait, busy, destroy_wait, destroy_again, announce, joining,
}
use tdm.ThreadPool.System.{System}

-- The queue is the list `xs` of jobs, which are those that were accepted and not yet taken.
pub record Rep (n : ℕ) (s : System) (xs : List (Ptr × Bytes)) : Type 0 where
  pub holds : Holds s.pool.jobs xs
  pub count : s.pool.queue_cur_num ≡ length xs
  pub size : s.pool.queue_max_num ≡ n
  pub bound : s.pool.queue_cur_num ≤ n
  pub history : s.accepted ≡ s.taken ++ contents xs
  pub closing : s.pool.pool_close ≡ true → (s.pool.queue_close ≡ true) × (s.pool.queue_cur_num ≡ 0)

abbrev pub IsJob : Heap Bytes → Ptr → Bytes → Type 0
IsJob h p b = (q : Ptr) × (h p ≡ some (node b q))

abbrev pub destroys : Pc → Bool
destroys destroy_wait = true
destroys destroy_again = true
destroys announce = true
destroys joining = true
destroys _ = false

-- Some thread has closed the pool and is about to wake all who wait.
abbrev pub Announcing : (ℕ → Pc) → Type 0
Announcing pc = (j : ℕ) × (pc j ≡ announce)

pub record Threads (s : System) (xs : List (Ptr × Bytes)) : Type 0 where
  pub busy_live :
      (i : ℕ) (p : Ptr) (b : Bytes)
      → s.pc i ≡ busy p b
      → IsJob s.pool.jobs.heap p b × (has p xs ≡ false)
  pub busy_own : (i j : ℕ) (p : Ptr) (b c : Bytes) → s.pc i ≡ busy p b → s.pc j ≡ busy p c → i ≡ j
  pub work_waits :
      (i : ℕ)
      → s.pc i ≡ work_wait
      → (s.pool.queue_cur_num ≡ 0) × ((s.pool.pool_close ≡ false) ⊎ Announcing s.pc)
  pub add_waits :
      (i : ℕ) (a : Bytes) (l : ℕ)
      → s.pc i ≡ add_wait a l
      → (s.pool.queue_cur_num ≡ s.pool.queue_max_num)
        × ((s.pool.pool_close ≡ false) ⊎ Announcing s.pc)
  pub destroy_waits : (i : ℕ) → s.pc i ≡ destroy_wait → 0 < s.pool.queue_cur_num
  pub destroyer_unique : (i j : ℕ) → destroys (s.pc i) ≡ true → destroys (s.pc j) ≡ true → i ≡ j
  pub destroyer_closed : (i : ℕ) → destroys (s.pc i) ≡ true → s.pool.queue_close ≡ true
