-- ===== src/ThreadPool/Inv/Sections.antt =====
-- Each critical section keeps the invariant.
use tdm.Base.{
  ℕ, ◌+◌, ◌<◌, ◌≡◌, ◌≢◌, refl, sym, ap, ◌∙◌, inl, inr, true, false, none, List, [], ◌∷◌, ◌++◌,
  append-nil, append_assoc, length-append, arith, ◌==◌, Bool-cases, ◌||◌,
}
use tdm.Chain.{Ptr, null, has, contents, has-append, contents-append}
use tdm.Chain.Queues.{head_of_empty}
use tdm.ThreadPool.{
  Bytes, Pc, idle, work_wait, add_wait, announce, busy, Turn, stay, job_buff, enqueue,
  threadpool_add_job,
}
use tdm.ThreadPool.System.{System, after}
use tdm.ThreadPool.Inv.Defs.{Rep, Threads, IsJob, destroys}
use tdm.ThreadPool.Inv.Jobs.{enqueue-Holds, enqueue_spares}
use tdm.ThreadPool.Inv.Turns.{Fair, Fair-Threads}

-- The whole invariant, with the jobs that the queue holds.
pub record Inv (n : ℕ) (s : System) : Type 0 where
  pub jobs : List (Ptr × Bytes)
  pub rep : Rep n s jobs
  pub threads : Threads s jobs

-- A turn that leaves the pool alone and goes on to `p` for a good reason.
abbrev pub Quiet : System → ℕ → Pc → Type 0
Quiet s i p =
    (p ≡ work_wait → (s.pool.queue_cur_num ≡ 0) × (s.pool.pool_close ≡ false))
    × ((a : Bytes) (l : ℕ)
        → p ≡ add_wait a l
        → (s.pool.queue_cur_num ≡ s.pool.queue_max_num) × (s.pool.pool_close ≡ false))
    × (p ≡ Pc.destroy_wait → 0 < s.pool.queue_cur_num)
    × ((a : Ptr) (b : Bytes) → p ≢ busy a b)
    × (destroys p ≡ true → destroys (s.pc i) ≡ true)
    × (s.pc i ≢ announce)

module _ {n : ℕ} {s : System} (v : Inv n s) (i : ℕ) where
  open v use {jobs, rep, threads}

  Quiet-Fair : (p : Pc) → Quiet s i p → Fair s jobs i (stay s.pool p) jobs
  Quiet-Fair p q = record {
    spares = λ j a b ne e. threads.busy_live j a b e;
    takes = λ a b e. absurd (q.3 a b e);
    idles = q.0;
    blocks = q.1;
    drains = q.2;
    wakes_workers = λ _ e. e;
    wakes_adders = λ _ e. e;
    wakes_destroyer = λ _ e. e;
    closes = inr (inl refl);
    announces = λ e. absurd (q.5 e);
    keeps_closed = λ e. e;
    destroyer = λ e. (threads.destroyer_closed i (q.4 e), inl (q.4 e));
  }

  quiet-Rep : (p : Pc) → Rep n (after s i (stay s.pool p)) jobs
  quiet-Rep p = record {
    holds = rep.holds;
    count = rep.count;
    size = rep.size;
    bound = rep.bound;
    history =
        append-nil s.accepted
        ∙ rep.history
        ∙ ap (λ r. r ++ contents jobs) (sym (append-nil s.taken));
    closing = rep.closing;
  }

  pub Quiet-Inv : (p : Pc) → Quiet s i p → Inv n (after s i (stay s.pool p))
  Quiet-Inv p q = record {
    jobs = jobs;
    rep = quiet-Rep p;
    threads = Fair-Threads threads (Quiet-Fair p q);
  }

  module _ (fresh len : ℕ) (arg : Bytes) (free : s.pool.jobs.heap fresh ≡ none) (ne : fresh ≢ null)
      (open_ : (s.pool.queue_close || s.pool.pool_close) ≡ false)
      (room : (s.pool.queue_cur_num == s.pool.queue_max_num) ≡ false)
      (caller : (destroys (s.pc i) ≡ false)) where
    abbrev longer : List (Ptr × Bytes)
    longer = jobs ++ (fresh, job_buff arg len) ∷ []

    abbrev added : Turn
    added = record {
      pool = record s.pool {
        jobs = enqueue s.pool.jobs fresh (job_buff arg len);
        queue_cur_num = s.pool.queue_cur_num + 1;
      };
      next = idle;
      not_empty = s.pool.jobs.head == null;
      not_full = false;
      empty = false;
      enqueued = job_buff arg len ∷ [];
      dequeued = [];
    }

    added-Rep : Rep n (after s i added) longer
    added-Rep = record {
      holds = enqueue-Holds s.pool.jobs jobs fresh (job_buff arg len) rep.holds ne free;
      count = omega (arith, rep.count, length-append jobs ((fresh, job_buff arg len) ∷ []));
      size = rep.size;
      bound = ground (arith, rep.bound, rep.size);
      history =
          simp (rep.history, append_assoc, contents-append jobs ((fresh, job_buff arg len) ∷ []));
      closing = λ e. ground arith;
    }

    spared :
        (p : Ptr) (b : Bytes)
        → IsJob s.pool.jobs.heap p b × (has p jobs ≡ false)
        → IsJob added.pool.jobs.heap p b × (has p longer ≡ false)
    spared p b ((q, e), out) =
        let apart : p ≢ fresh = ground arith in
        (
          (q, enqueue_spares s.pool.jobs jobs fresh p (job_buff arg len) rep.holds apart out ∙ e),
          ground (arith, has-append p jobs ((fresh, job_buff arg len) ∷ [])),
        )

    added-Fair : Fair s jobs i added longer
    added-Fair = record {
      spares = λ j p b _ e. spared p b (threads.busy_live j p b e);
      takes = λ a b e. cc;
      idles = λ e. cc;
      blocks = λ a l e. cc;
      drains = λ e. cc;
      wakes_workers = λ no_signal none_left.
          absurd
            (ground (arith, head_of_empty s.pool.jobs jobs rep.holds (omega (arith, rep.count))));
      wakes_adders = λ _ e. ground arith;
      wakes_destroyer = λ _ e. omega arith;
      closes = inr (inl refl);
      announces = λ e. ground arith;
      keeps_closed = λ e. e;
      destroyer = λ e. cc;
    }

    added-Inv : Inv n (after s i added)
    added-Inv = record { jobs = longer; rep = added-Rep; threads = Fair-Threads threads added-Fair }

  pub add-Inv :
      (fresh len : ℕ) (arg : Bytes)
      → (fresh ≢ null → s.pool.jobs.heap fresh ≡ none)
      → destroys (s.pc i) ≡ false
      → Inv n (after s i (threadpool_add_job s.pool fresh arg len))
  unfolding threadpool_add_job
  add-Inv fresh len arg free caller = elim (Bool-cases (s.pool.queue_close || s.pool.pool_close)) [
    | inl shut ↦ elim (Bool-cases (s.pool.queue_cur_num == s.pool.queue_max_num)) [
      | inl full ↦ rw (shut, full) (Quiet-Inv idle quiet_idle)
      | inr room ↦ rw (shut, room) (Quiet-Inv idle quiet_idle)
    ]
    | inr open_ ↦ elim (Bool-cases (s.pool.queue_cur_num == s.pool.queue_max_num)) [
      | inl full ↦
          rw (open_, full)
            (Quiet-Inv (add_wait arg len) (
              (λ e. cc),
              (λ a l e. (ground arith, ground arith)),
              (λ e. cc),
              (λ a b e. cc),
              (λ e. cc),
              (λ e. ground arith),
            ))
      | inr room ↦
          rw (open_, room)
            (elim (Bool-cases (fresh == null)) [
              | inl failed ↦ rw failed (Quiet-Inv idle quiet_idle)
              | inr got ↦
                  let ne : fresh ≢ null = ground arith in
                  rw got (added-Inv fresh len arg (free ne) ne open_ room caller)
            ])
    ]
  ]
    where
      quiet_idle : Quiet s i idle
      quiet_idle =
          ((λ e. cc), (λ a l e. cc), (λ e. cc), (λ a b e. cc), (λ e. cc), (λ e. ground arith))
