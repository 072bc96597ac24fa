-- ===== src/ThreadPool/Safety.antt =====
-- What holds in every state that src/threadpool.c can reach, whatever the order of its threads.
use tdm.Base.{
  ℕ, ◌≤◌, ◌<◌, ◌≡◌, refl, ◌∙◌, ◌⊎◌, inl, inr, Bool, true, false, List, [], ◌∷◌, ◌++◌, append-nil,
  length, arith,
}
use tdm.Chain.{Ptr, contents, Holds, has}
use tdm.ThreadPool.{Bytes, work_wait, add_wait, busy, destroy_wait}
use tdm.ThreadPool.System.{
  System, Step, add, work, finish, destroy, drained, broadcast, spurious, init, Reach, start, later,
}
use tdm.ThreadPool.Inv.Defs.{IsJob, Announcing}
use tdm.ThreadPool.Inv.Sections.{Inv, add-Inv}
use tdm.ThreadPool.Inv.Workers.{
  work-Inv, finish-Inv, destroy-Inv, drained-Inv, broadcast-Inv, spurious-Inv,
}

init-Inv : (n : ℕ) (w : ℕ → Bool) → Inv n (init n w)
init-Inv n w = record {
  jobs = [];
  rep = record {
    holds = record { linked = tt; starts = refl; ends = refl };
    count = refl;
    size = refl;
    bound = omega arith;
    history = refl;
    closing = λ e. cc;
  };
  threads = record {
    busy_live = λ i p b e. ground arith;
    busy_own = λ i j p b c e f. ground arith;
    work_waits = λ i e. ground arith;
    add_waits = λ i a l e. ground arith;
    destroy_waits = λ i e. ground arith;
    destroyer_unique = λ i j e f. ground arith;
    destroyer_closed = λ i e. ground arith;
  };
}

pub Step-Inv : {n : ℕ} {s t : System} → Step s t → Inv n s → Inv n t
Step-Inv (add i fresh len arg from free fits) v =
    add-Inv v i fresh len arg free (elim from [ inl e ↦ rw e | inr e ↦ rw e ])
Step-Inv (work i e) v = work-Inv v i e
Step-Inv (finish i p b e) v = finish-Inv v i p b e
Step-Inv (destroy i e) v = destroy-Inv v i e
Step-Inv (drained i e) v = drained-Inv v i e
Step-Inv (broadcast i e) v = broadcast-Inv v i e
Step-Inv (spurious i w) v = spurious-Inv v i w

pub Reach-Inv : {n : ℕ} {w : ℕ → Bool} {s : System} → Reach n w s → Inv n s
Reach-Inv {n} {w} start = init-Inv n w
Reach-Inv (later r st) = Step-Inv st (Reach-Inv r)

module _ {n : ℕ} {w : ℕ → Bool} {s : System} (r : Reach n w s) where
  -- In every reachable state the linked nodes from `head` to `tail` are as many as
  -- `queue_cur_num` says and never more than `queue_max_num`; read from the head they are the jobs
  -- accepted so far less those already taken, in the order in which they were accepted.
  pub queue-fifo :
      (xs : List (Ptr × Bytes)) × Holds s.pool.jobs xs
      × (s.pool.queue_cur_num ≡ length xs)
      × (s.pool.queue_cur_num ≤ n)
      × (s.accepted ≡ s.taken ++ contents xs)
  queue-fifo = let v = Reach-Inv r in (v.jobs, v.rep.holds, v.rep.count, v.rep.bound, v.rep.history)

  -- In every reachable state a worker waits for a job only while the queue is empty, and a caller
  -- waits for room only while the queue is full; and if the pool has been closed meanwhile, some
  -- thread is still to broadcast. So no wake-up is lost.
  pub wait-justified :
      ((i : ℕ)
        → s.pc i ≡ work_wait
        → (s.pool.queue_cur_num ≡ 0) × ((s.pool.pool_close ≡ false) ⊎ Announcing s.pc))
      × ((i : ℕ) (a : Bytes) (l : ℕ)
          → s.pc i ≡ add_wait a l
          → (s.pool.queue_cur_num ≡ n) × ((s.pool.pool_close ≡ false) ⊎ Announcing s.pc))
      × ((i : ℕ) → s.pc i ≡ destroy_wait → 0 < s.pool.queue_cur_num)
  wait-justified =
      let v = Reach-Inv r in
      (
        v.threads.work_waits,
        (λ i a l e. let (c, o) = v.threads.add_waits i a l e in (c ∙ v.rep.size, o)),
        v.threads.destroy_waits,
      )

  -- In every reachable state the job that a worker runs is still allocated with the bytes it held
  -- when it was taken, is no longer linked in the queue, and is run by no other worker.
  pub busy-owns :
      (i : ℕ) (p : Ptr) (b : Bytes)
      → s.pc i ≡ busy p b
      → IsJob s.pool.jobs.heap p b
        × ((xs : List (Ptr × Bytes)) × (Holds s.pool.jobs xs × (has p xs ≡ false)))
        × ((j : ℕ) (c : Bytes) → s.pc j ≡ busy p c → j ≡ i)
  busy-owns i p b e =
      let v = Reach-Inv r in
      let (live, out) = v.threads.busy_live i p b e in
      (live, (v.jobs, (v.rep.holds, out)), λ j c f. v.threads.busy_own j i p c b f e)

  -- Once `threadpool_destroy` has closed the pool, every job that was ever accepted has been
  -- handed to a worker, in order.
  pub close-drained : s.pool.pool_close ≡ true → s.accepted ≡ s.taken
  close-drained e =
      let v = Reach-Inv r in
      let empty : length v.jobs ≡ 0 = omega (arith, v.rep.count, (v.rep.closing e).1) in
      v.rep.history ∙ none_left v.jobs s.taken empty
    where
      none_left : (xs : List (Ptr × Bytes)) (a : List Bytes) → length xs ≡ 0 → a ++ contents xs ≡ a
      none_left [] a e = append-nil a
      none_left (x ∷ xs) a e = absurd (omega arith)
