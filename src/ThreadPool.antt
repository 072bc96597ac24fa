-- ===== src/ThreadPool.antt =====
-- src/threadpool.c and inc/threadpool.h: a bounded queue of jobs, the threads that add jobs and
-- take them, and the shutdown. Every access to the shared fields stands under `pool->mutex`, so a
-- critical section is one step: from a lock, or from the return of a `pthread_cond_wait`, to the
-- next unlock or wait. `Turn` is what such a section does. A thread that waits on a condition
-- variable re-tests its condition when it is woken, so the section is the same function again.
--
-- `fresh` is what `malloc` returns. The job's buffer holds 1024 bytes; a section that adds a job is
-- taken with at most so many bytes (`System.Step.add`). `Freeing` has the loop at the end of
-- `threadpool_destroy`. The mutex, the creation and joining of threads and the log lines are not
-- modelled.
pub mod System
pub mod Inv
pub mod Safety
pub mod Freeing
use tdm.Base.{
  ℕ, ◌+◌, ◌-◌, Bool, true, false, not, ◌&&◌, ◌||◌, none, some, List, [], ◌∷◌, ◌++◌, ◌==◌, ltb,
  if◌then◌else◌, take, replicate,
}
use tdm.Chain.{Ptr, null, Node, node, Heap, write, set_next, Queue}

-- `char Buff[1024]`
abbrev pub job_size : ℕ
job_size = 1024

abbrev pub Bytes : Type 0
Bytes = List ℕ

pub record Pool : Type 0 where
  pub queue_max_num : ℕ
  pub jobs : Queue Bytes
  pub queue_cur_num : ℕ
  pub queue_close : Bool
  pub pool_close : Bool

-- Where a thread stands between two critical sections.
pub data Pc : Type 0 where
  idle : Pc  -- a caller, outside the pool
  add_wait : Bytes → ℕ → Pc  -- in `pthread_cond_wait` on `queue_not_full`
  add_again : Bytes → ℕ → Pc  -- woken there
  work_wait : Pc  -- in `pthread_cond_wait` on `queue_not_empty`
  work_again : Pc  -- at the head of the worker's loop, or woken
  busy : Ptr → Bytes → Pc  -- with the job at this address, which held these bytes when taken
  exited : Pc
  destroy_wait : Pc  -- in `pthread_cond_wait` on `queue_empty`
  destroy_again : Pc
  announce : Pc  -- `pool_close` is set, the broadcasts are to come
  joining : Pc

-- A critical section: the pool after it, where its thread goes on, and which of the condition
-- variables it has signalled. `enqueued` and `dequeued` record the job that it added or took.
pub record Turn : Type 0 where
  pub pool : Pool
  pub next : Pc
  pub not_empty : Bool
  pub not_full : Bool
  pub empty : Bool
  pub enqueued : List Bytes
  pub dequeued : List Bytes

-- A section that changes and signals nothing.
abbrev pub stay : Pool → Pc → Turn
stay s p = record {
  pool = s;
  next = p;
  not_empty = false;
  not_full = false;
  empty = false;
  enqueued = [];
  dequeued = [];
}

-- `memset` of the job, then `memcpy` of `len` bytes of the argument.
unfoldable pub job_buff : Bytes → ℕ → Bytes
job_buff arg len = take len arg ++ replicate (job_size - len) 0

-- The job behind the last one, and the count.
unfoldable pub enqueue : Queue Bytes → Ptr → Bytes → Queue Bytes
enqueue q fresh b =
    let made : Heap Bytes = write q.heap fresh (some (node b null)) in
    if q.head == null
    then record { heap = made; head = fresh; tail = fresh }
    else record { heap = set_next made q.tail fresh; head = q.head; tail = fresh }

unfoldable pub threadpool_add_job : Pool → Ptr → Bytes → ℕ → Turn
threadpool_add_job s fresh arg len =
    if (s.queue_cur_num == s.queue_max_num) && not (s.queue_close || s.pool_close)
    then stay s (add_wait arg len)
    else if s.queue_close || s.pool_close
    then stay s idle
    else if fresh == null
    then stay s idle
    else record {
      pool = record s {
        jobs = enqueue s.jobs fresh (job_buff arg len);
        queue_cur_num = s.queue_cur_num + 1;
      };
      next = idle;
      not_empty = s.jobs.head == null;
      not_full = false;
      empty = false;
      enqueued = job_buff arg len ∷ [];
      dequeued = [];
    }

-- The loop of a worker up to the call of the callback. Reading through a null or dangling `head`
-- is a fault, which `none` stands for.
unfoldable pub dequeue : Pool → Node Bytes → Turn
dequeue s job =
    let left = s.queue_cur_num - 1 in
    record {
      pool = record s {
        jobs = record s.jobs {
          head = if left == 0 then null else job.next;
          tail = if left == 0 then null else s.jobs.tail;
        };
        queue_cur_num = left;
      };
      next = busy s.jobs.head job.content;
      not_empty = false;
      not_full = (left + 1) == s.queue_max_num;
      empty = left == 0;
      enqueued = [];
      dequeued = job.content ∷ [];
    }

unfoldable pub threadpool_function : Pool → Turn
unfolding dequeue
threadpool_function s =
    if (s.queue_cur_num == 0) && not s.pool_close
    then stay s work_wait
    else if s.pool_close
    then stay s exited
    else elim (s.jobs.heap s.jobs.head) [ none ↦ stay s exited | some job ↦ dequeue s job ]

-- `free(pjob)`, after the callback has returned.
unfoldable pub free_job : Pool → Ptr → Turn
free_job s p =
    stay (record s { jobs = record s.jobs { heap = write s.jobs.heap p none } }) work_again

-- `threadpool_destroy` from the test of the count on: in the section that sets `queue_close`, or
-- when woken.
unfoldable pub destroy_drained : Pool → Turn
destroy_drained s =
    if not (s.queue_cur_num == 0)
    then stay s destroy_wait
    else stay (record s { pool_close = true }) announce

unfoldable pub threadpool_destroy : Pool → Turn
unfolding destroy_drained
threadpool_destroy s =
    if s.queue_close || s.pool_close
    then stay s idle
    else destroy_drained (record s { queue_close = true })

-- The two broadcasts of `threadpool_destroy`, past the unlock.
unfoldable pub destroy_broadcast : Pool → Turn
destroy_broadcast s = record (stay s joining) { not_empty = true; not_full = true }
