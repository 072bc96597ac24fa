-- ===== src/ThreadPool/System.antt =====
-- Any number of threads over one pool of src/threadpool.c, in any order of their critical
-- sections. A condition variable wakes every thread that waits on it; of `queue_empty`, which is
-- signalled and not broadcast, only one thread ever waits (`Inv.destroyer_unique`). A wait may also end
-- spuriously.
use tdm.Base.{ℕ, ◌≤◌, ◌≡◌, ◌≢◌, ◌⊎◌, Bool, true, false, none, List, [], ◌++◌, ◌==◌, if◌then◌else◌}
use tdm.Chain.{null}
use tdm.ThreadPool.{
  job_size, Bytes, Pool, Pc, idle, add_wait, add_again, work_wait, work_again, busy, destroy_wait,
  destroy_again, announce, Turn, stay, threadpool_add_job, threadpool_function, free_job,
  destroy_drained, threadpool_destroy, destroy_broadcast,
}

-- `accepted` and `taken` are all the jobs that were added and taken so far, in this order.
pub record System : Type 0 where
  pub pool : Pool
  pub pc : ℕ → Pc
  pub accepted : List Bytes
  pub taken : List Bytes

-- A waiting thread at a signal: `e` of `queue_not_empty`, `f` of `queue_not_full`, `d` of
-- `queue_empty`.
abbrev pub wake : Bool → Bool → Bool → Pc → Pc
wake e f d work_wait = if e then work_again else work_wait
wake e f d (add_wait a l) = if f then add_again a l else add_wait a l
wake e f d destroy_wait = if d then destroy_again else destroy_wait
wake e f d p = p

abbrev pub waits : Pc → Bool
waits work_wait = true
waits (add_wait a l) = true
waits destroy_wait = true
waits _ = false

unfoldable pub moved : (ℕ → Pc) → ℕ → Turn → ℕ → Pc
moved pc i t j = if i == j then t.next else wake t.not_empty t.not_full t.empty (pc j)

-- The system after thread `i` has taken the turn `t`.
abbrev pub after : System → ℕ → Turn → System
after s i t = record {
  pool = t.pool;
  pc = moved s.pc i t;
  accepted = s.accepted ++ t.enqueued;
  taken = s.taken ++ t.dequeued;
}

pub data Step (s : System) : System → Type 0 where
  add :
      (i fresh len : ℕ) (arg : Bytes)
      → (s.pc i ≡ idle) ⊎ (s.pc i ≡ add_again arg len)
      → (fresh ≢ null → s.pool.jobs.heap fresh ≡ none)
      → len ≤ job_size
      → Step s (after s i (threadpool_add_job s.pool fresh arg len))
  work : (i : ℕ) → s.pc i ≡ work_again → Step s (after s i (threadpool_function s.pool))
  finish : (i p : ℕ) (b : Bytes) → s.pc i ≡ busy p b → Step s (after s i (free_job s.pool p))
  destroy : (i : ℕ) → s.pc i ≡ idle → Step s (after s i (threadpool_destroy s.pool))
  drained : (i : ℕ) → s.pc i ≡ destroy_again → Step s (after s i (destroy_drained s.pool))
  broadcast : (i : ℕ) → s.pc i ≡ announce → Step s (after s i (destroy_broadcast s.pool))
  spurious :
      (i : ℕ)
      → waits (s.pc i) ≡ true
      → Step s (after s i (stay s.pool (wake true true true (s.pc i))))

-- `threadpool_init`: an empty open queue, and threads that are callers or workers.
abbrev pub init : ℕ → (ℕ → Bool) → System
init queue_max_num is_worker = record {
  pool = record {
    queue_max_num = queue_max_num;
    jobs = record { heap = λ _. none; head = null; tail = null };
    queue_cur_num = 0;
    queue_close = false;
    pool_close = false;
  };
  pc = λ i. if is_worker i then work_again else idle;
  accepted = [];
  taken = [];
}

pub data Reach (n : ℕ) (w : ℕ → Bool) : System → Type 0 where
  start : Reach n w (init n w)
  later : {s t : System} → Reach n w s → Step s t → Reach n w t
