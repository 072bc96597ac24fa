-- ===== src/Examples/Pool.antt =====
-- One caller and one worker over a pool of two places: a job is added, taken and done, then the pool
-- is destroyed.
use tdm.Base.{
  ℕ, ◌≤◌, ◌<◌, ◌≡◌, ◌⊎◌, refl, inl, Bool, true, false, List, [], ◌∷◌, ◌++◌, ◌==◌, length, arith,
}
use tdm.Chain.{Ptr, contents, Holds, has, write, set_next}
use tdm.ThreadPool.{
  Bytes, job_buff, work_wait, add_wait, busy, destroy_wait, enqueue, threadpool_add_job, dequeue,
  threadpool_function, free_job, destroy_drained, threadpool_destroy,
}
use tdm.ThreadPool.System.{
  System, after, moved, init, Reach, start, later, add, work, finish, destroy,
}
use tdm.ThreadPool.Inv.Defs.{IsJob, Announcing}
use tdm.ThreadPool.Safety.{queue-fifo, wait-justified, busy-owns, close-drained}

abbrev is_worker : ℕ → Bool
is_worker i = i == 1

abbrev text : Bytes
text = 7 ∷ 8 ∷ []

abbrev p0 : System
p0 = init 2 is_worker

abbrev p1 : System
p1 = after p0 0 (threadpool_add_job p0.pool 10 text 2)

abbrev p2 : System
p2 = after p1 1 (threadpool_function p1.pool)

abbrev p3 : System
p3 = after p2 1 (free_job p2.pool 10)

abbrev p4 : System
p4 = after p3 0 (threadpool_destroy p3.pool)

r1 : Reach 2 is_worker p1
r1 = later start (add 0 10 2 text (inl refl) (λ _. refl) (omega arith))

r2 : Reach 2 is_worker p2
unfolding moved threadpool_add_job
r2 = later r1 (work 1 refl)

taken : p2.pc 1 ≡ busy 10 (job_buff text 2)
unfolding moved threadpool_add_job threadpool_function enqueue write dequeue set_next
taken = refl

r3 : Reach 2 is_worker p3
r3 = later r2 (finish 1 10 (job_buff text 2) taken)

r4 : Reach 2 is_worker p4
unfolding moved threadpool_add_job threadpool_function enqueue write dequeue set_next free_job
r4 = later r3 (destroy 0 refl)

closed : p4.pool.pool_close ≡ true
unfolding threadpool_add_job threadpool_function enqueue write dequeue set_next free_job
    threadpool_destroy destroy_drained
closed = refl

queue-fifo_example :
    (xs : List (Ptr × Bytes)) × Holds p1.pool.jobs xs
    × (p1.pool.queue_cur_num ≡ length xs)
    × (p1.pool.queue_cur_num ≤ 2)
    × (p1.accepted ≡ p1.taken ++ contents xs)
queue-fifo_example = queue-fifo r1

wait-justified_example :
    ((i : ℕ)
      → p2.pc i ≡ work_wait
      → (p2.pool.queue_cur_num ≡ 0) × ((p2.pool.pool_close ≡ false) ⊎ Announcing p2.pc))
    × ((i : ℕ) (a : Bytes) (l : ℕ)
        → p2.pc i ≡ add_wait a l
        → (p2.pool.queue_cur_num ≡ 2) × ((p2.pool.pool_close ≡ false) ⊎ Announcing p2.pc))
    × ((i : ℕ) → p2.pc i ≡ destroy_wait → 0 < p2.pool.queue_cur_num)
wait-justified_example = wait-justified r2

busy-owns_example :
    IsJob p2.pool.jobs.heap 10 (job_buff text 2)
    × ((xs : List (Ptr × Bytes)) × (Holds p2.pool.jobs xs × (has 10 xs ≡ false)))
    × ((j : ℕ) (c : Bytes) → p2.pc j ≡ busy 10 c → j ≡ 1)
busy-owns_example = busy-owns r2 1 10 (job_buff text 2) taken

close-drained_example : p4.accepted ≡ p4.taken
close-drained_example = close-drained r4 closed
