-- ===== src/ThreadPool/Inv/Workers.antt =====
-- The sections of a worker and of the thread that destroys the pool keep the invariant.
use tdm.Base.{
  ℕ, ◌<◌, ◌≡◌, ◌≢◌, refl, sym, subst, ◌⊎◌, inl, inr, Bool, true, false, none, List, [], ◌∷◌,
  append-nil, append_assoc, arith, ◌==◌, Bool-cases, ◌||◌,
}
use tdm.Chain.{Ptr, node, write, first, frame}
use tdm.Chain.Queues.{head_node}
use tdm.ThreadPool.{
  Bytes, Pool, Pc, destroy_again, add_again, idle, work_wait, work_again, add_wait, exited,
  announce, busy, destroy_wait, Turn, stay, dequeue, threadpool_function, free_job, destroy_drained,
  threadpool_destroy, destroy_broadcast,
}
use tdm.ThreadPool.System.{System, after, wake, waits}
use tdm.ThreadPool.Inv.Defs.{Rep, Threads, destroys}
use tdm.ThreadPool.Inv.Jobs.{dequeue-Holds}
use tdm.ThreadPool.Inv.Turns.{Fair, Fair-Threads}
use tdm.ThreadPool.Inv.Sections.{Inv, Quiet, Quiet-Inv}

module _ {n : ℕ} {s : System} (i : ℕ) (p : Ptr) (b : Bytes) (xs : List (Ptr × Bytes))
    (rep : Rep n s ((p, b) ∷ xs)) (threads : Threads s ((p, b) ∷ xs))
    (worker : s.pc i ≡ work_again) where
  abbrev taken : Turn
  taken = dequeue s.pool (node b (first xs))

  taken-Rep : Rep n (after s i taken) xs
  unfolding dequeue
  taken-Rep = record {
    holds = dequeue-Holds s.pool p b xs rep.holds rep.count;
    count = omega (arith, rep.count);
    size = rep.size;
    bound = omega (arith, rep.bound);
    history = simp (rep.history, append_assoc, append-nil);
    closing = λ e. absurd (omega (arith, rep.count, (rep.closing e).1));
  }

  taken-Fair : Fair s ((p, b) ∷ xs) i taken xs
  unfolding dequeue
  taken-Fair = record {
    spares = λ j q c _ e. let (live, out) = threads.busy_live j q c e in (live, ground arith);
    takes = λ q c e.
        let at_head : q ≡ p = ground (arith, rep.holds.starts) in
        (
          (first xs, ground (arith, rep.holds.linked.1)),
          ground (arith, rep.holds.linked.2),
          ground arith,
        );
    idles = λ e. cc;
    blocks = λ a l e. cc;
    drains = λ e. cc;
    wakes_workers = λ _ e. absurd (omega (arith, rep.count));
    wakes_adders = λ quiet e. absurd (ground (arith, rep.count));
    wakes_destroyer = λ quiet e. ground (arith, rep.count);
    closes = inr (inl refl);
    announces = λ e. cc;
    keeps_closed = λ e. e;
    destroyer = λ e. cc;
  }

  pub taken-Inv : Inv n (after s i taken)
  taken-Inv = record { jobs = xs; rep = taken-Rep; threads = Fair-Threads threads taken-Fair }

-- A worker with the queue not empty finds the first job at `head`.
work_found :
    {n : ℕ} {s : System} (i : ℕ) (xs : List (Ptr × Bytes))
    → Rep n s xs
    → Threads s xs
    → s.pc i ≡ work_again
    → 0 < s.pool.queue_cur_num
    → s.pool.pool_close ≡ false
    → Inv n (after s i (threadpool_function s.pool))
unfolding threadpool_function
work_found i [] rep threads worker some_left open_ = absurd (omega (arith, rep.count))
work_found {s} i ((p, b) ∷ xs) rep threads worker some_left open_ =
    let left : (s.pool.queue_cur_num == 0) ≡ false = ground arith in
    rw (left, open_, head_node s.pool.jobs p b xs rep.holds) (taken-Inv i p b xs rep threads worker)

work_exits : (s : Pool) → s.pool_close ≡ true → threadpool_function s ≡ stay s exited
unfolding threadpool_function
work_exits s shut = ground arith

work_idles :
    (s : Pool)
    → s.pool_close ≡ false
    → (s.queue_cur_num == 0) ≡ true
    → threadpool_function s ≡ stay s work_wait
unfolding threadpool_function
work_idles s open_ none_left = ground arith

module _ {n : ℕ} {s : System} (v : Inv n s) (i : ℕ) where
  open v use {jobs, rep, threads}

  by_turn : (t : Turn) {u : Turn} → t ≡ u → Inv n (after s i u) → Inv n (after s i t)
  by_turn t e w = subst (λ x. Inv n (after s i x)) (sym e) w

  pub work-Inv : s.pc i ≡ work_again → Inv n (after s i (threadpool_function s.pool))
  work-Inv worker = elim (Bool-cases s.pool.pool_close) [
    | inl shut ↦ by_turn _ (work_exits s.pool shut) (Quiet-Inv v i exited leaving)
    | inr open_ ↦ elim (Bool-cases (s.pool.queue_cur_num == 0)) [
      | inl none_left ↦ by_turn _ (work_idles s.pool open_ none_left) (
          Quiet-Inv v i work_wait (
            (λ e. (ground arith, open_)),
            (λ a l e. cc),
            (λ e. cc),
            (λ a b e. cc),
            (λ e. cc),
            (λ e. cc),
          ))
      | inr left ↦ work_found i jobs rep threads worker (ground arith) open_
    ]
  ]
    where
      leaving : Quiet s i exited
      leaving = ((λ e. cc), (λ a l e. cc), (λ e. cc), (λ a b e. cc), (λ e. cc), (λ e. cc))

  pub finish-Inv : (p : Ptr) (b : Bytes) → s.pc i ≡ busy p b → Inv n (after s i (free_job s.pool p))
  unfolding free_job write
  finish-Inv p b mine = record {
    jobs = jobs;
    rep = record {
      holds = record {
        linked =
            frame s.pool.jobs.heap jobs p none (threads.busy_live i p b mine).1 rep.holds.linked;
        starts = rep.holds.starts;
        ends = rep.holds.ends;
      };
      count = rep.count;
      size = rep.size;
      bound = rep.bound;
      history = simp (rep.history, append-nil);
      closing = rep.closing;
    };
    threads = Fair-Threads threads (record {
      spares = λ j q c ne e.
          let ((r, live), out) = threads.busy_live j q c e in
          let apart : (q == p) ≡ false = ground (arith, threads.busy_own i j p b c) in
          ((r, rw apart live), out);
      takes = λ q c e. cc;
      idles = λ e. cc;
      blocks = λ a l e. cc;
      drains = λ e. cc;
      wakes_workers = λ _ e. e;
      wakes_adders = λ _ e. e;
      wakes_destroyer = λ _ e. e;
      closes = inr (inl refl);
      announces = λ e. cc;
      keeps_closed = λ e. e;
      destroyer = λ e. cc;
    });
  }

  pub spurious-Inv :
      waits (s.pc i) ≡ true → Inv n (after s i (stay s.pool (wake true true true (s.pc i))))
  spurious-Inv w = woken (s.pc i) refl w
    where
      woken :
          (p : Pc)
          → s.pc i ≡ p
          → waits p ≡ true
          → Inv n (after s i (stay s.pool (wake true true true p)))
      woken work_wait e w =
          Quiet-Inv v i work_again
            ((λ e. cc), (λ a l e. cc), (λ e. cc), (λ a b e. cc), (λ e. cc), (λ h. cc (h, e)))
      woken (add_wait a l) e w =
          Quiet-Inv v i (add_again a l)
            ((λ e. cc), (λ a l e. cc), (λ e. cc), (λ a b e. cc), (λ h. cc), (λ h. cc (h, e)))
      woken destroy_wait e w =
          Quiet-Inv v i destroy_again
            ((λ e. cc), (λ a l e. cc), (λ e. cc), (λ a b e. cc), (λ _. rw e), (λ h. cc (h, e)))
      woken _ e w = cc

  -- The turn of the one thread that destroys the pool.
  closing-Inv :
      (q c : Bool) (p : Pc)
      → q ≡ true
      → (c ≡ true → s.pool.queue_cur_num ≡ 0)
      → (c ≡ false) ⊎ (p ≡ announce)
      → (p ≡ destroy_wait) ⊎ (p ≡ announce)
      → (p ≡ destroy_wait → 0 < s.pool.queue_cur_num)
      → (destroys (s.pc i) ≡ true) ⊎ (s.pool.queue_close ≡ false)
      → s.pc i ≢ announce
      → Inv n (after s i (stay (record s.pool { queue_close = q; pool_close = c }) p))
  closing-Inv q c p is_closed drained shut goes dr only na = record {
    jobs = jobs;
    rep = record {
      holds = rep.holds;
      count = rep.count;
      size = rep.size;
      bound = rep.bound;
      history = simp (rep.history, append-nil);
      closing = λ e. (is_closed, drained e);
    };
    threads = Fair-Threads threads (record {
      spares = λ j a b ne e. threads.busy_live j a b e;
      takes = λ a b e. ground arith;
      idles = λ e. ground arith;
      blocks = λ a l e. ground arith;
      drains = dr;
      wakes_workers = λ _ e. e;
      wakes_adders = λ _ e. e;
      wakes_destroyer = λ _ e. e;
      closes = elim shut [ inl o ↦ inl o | inr a ↦ inr (inr a) ];
      announces = λ e. absurd (na e);
      keeps_closed = λ _. is_closed;
      destroyer = λ _. (is_closed, only);
    });
  }

  pub drained-Inv : s.pc i ≡ destroy_again → Inv n (after s i (destroy_drained s.pool))
  unfolding destroy_drained
  drained-Inv me = elim (Bool-cases (s.pool.queue_cur_num == 0)) [
    | inl none_left ↦ rw none_left (
        closing-Inv s.pool.queue_close true announce (threads.destroyer_closed i (rw me))
          (λ _. ground arith) (inr refl) (inr refl) (λ e. cc) (inl (rw me)) (λ e. cc))
    | inr left ↦ rw left (
        Quiet-Inv v i destroy_wait
          ((λ e. cc), (λ a l e. cc), (λ _. ground arith), (λ a b e. cc), (λ _. rw me), (λ e. cc)))
  ]

  pub destroy-Inv : s.pc i ≡ idle → Inv n (after s i (threadpool_destroy s.pool))
  unfolding threadpool_destroy
  destroy-Inv me = elim (Bool-cases (s.pool.queue_close || s.pool.pool_close)) [
    | inl shut ↦ rw shut (
        Quiet-Inv v i idle
          ((λ e. cc), (λ a l e. cc), (λ e. cc), (λ a b e. cc), (λ e. cc), (λ e. cc)))
    | inr open_ ↦ rw open_ (elim (Bool-cases (s.pool.queue_cur_num == 0)) [
      | inl none_left ↦ rw none_left (
          closing-Inv true true announce refl (λ _. ground arith) (inr refl) (inr refl) (λ e. cc)
            (inr (ground arith)) (λ e. cc))
      | inr left ↦ rw left (
          closing-Inv true s.pool.pool_close destroy_wait refl (λ e. ground arith)
            (inl (ground arith)) (inl refl) (λ _. ground arith) (inr (ground arith)) (λ e. cc))
    ])
  ]

  pub broadcast-Inv : s.pc i ≡ announce → Inv n (after s i (destroy_broadcast s.pool))
  unfolding destroy_broadcast
  broadcast-Inv me = record {
    jobs = jobs;
    rep = record {
      holds = rep.holds;
      count = rep.count;
      size = rep.size;
      bound = rep.bound;
      history = simp (rep.history, append-nil);
      closing = rep.closing;
    };
    threads = Fair-Threads threads (record {
      spares = λ j a b ne e. threads.busy_live j a b e;
      takes = λ a b e. cc;
      idles = λ e. cc;
      blocks = λ a l e. cc;
      drains = λ e. cc;
      wakes_workers = λ e. cc;
      wakes_adders = λ e. cc;
      wakes_destroyer = λ _ e. e;
      closes = inr (inl refl);
      announces = λ e. (refl, refl);
      keeps_closed = λ e. e;
      destroyer = λ _. (threads.destroyer_closed i (rw me), inl (rw me));
    });
  }
