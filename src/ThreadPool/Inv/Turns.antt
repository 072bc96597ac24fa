-- ===== src/ThreadPool/Inv/Turns.antt =====
-- What a turn must guarantee so that the other threads' view of the pool stays true.
use tdm.Base.{ℕ, ◌<◌, ◌≡◌, ◌⊎◌, inl, inr, true, false, List, arith, ◌==◌, Bool-cases}
use tdm.Chain.{Ptr, has}
use tdm.ThreadPool.{Bytes, add_wait, work_wait, busy, destroy_wait, announce, Turn}
use tdm.ThreadPool.System.{System, moved, after}
use tdm.ThreadPool.Inv.Defs.{IsJob, destroys, Announcing, Threads}

pub record Fair (s : System) (xs : List (Ptr × Bytes)) (i : ℕ) (t : Turn) (ys : List (Ptr × Bytes))
    : Type 0 where
  -- A job in the hands of another thread is left alone.
  pub spares :
      (j : ℕ) (p : Ptr) (b : Bytes)
      → (i == j) ≡ false
      → s.pc j ≡ busy p b
      → IsJob t.pool.jobs.heap p b × (has p ys ≡ false)
  -- A job that the thread takes is its own.
  pub takes :
      (p : Ptr) (b : Bytes)
      → t.next ≡ busy p b
      → IsJob t.pool.jobs.heap p b × (has p ys ≡ false) × (has p xs ≡ true)
  -- It waits only while the condition that it waits for fails, and before the close.
  pub idles : t.next ≡ work_wait → (t.pool.queue_cur_num ≡ 0) × (t.pool.pool_close ≡ false)
  pub blocks :
      (a : Bytes) (l : ℕ)
      → t.next ≡ add_wait a l
      → (t.pool.queue_cur_num ≡ t.pool.queue_max_num) × (t.pool.pool_close ≡ false)
  pub drains : t.next ≡ destroy_wait → 0 < t.pool.queue_cur_num
  -- A condition that becomes true is signalled.
  pub wakes_workers : t.not_empty ≡ false → s.pool.queue_cur_num ≡ 0 → t.pool.queue_cur_num ≡ 0
  pub wakes_adders :
      t.not_full ≡ false
      → s.pool.queue_cur_num ≡ s.pool.queue_max_num
      → t.pool.queue_cur_num ≡ t.pool.queue_max_num
  pub wakes_destroyer : t.empty ≡ false → 0 < s.pool.queue_cur_num → 0 < t.pool.queue_cur_num
  -- The pool is closed only by a thread that goes on to wake the others.
  pub closes :
      (t.pool.pool_close ≡ false) ⊎ ((s.pool.pool_close ≡ t.pool.pool_close) ⊎ (t.next ≡ announce))
  pub announces : s.pc i ≡ announce → (t.not_empty ≡ true) × (t.not_full ≡ true)
  -- Only one thread destroys.
  pub keeps_closed : s.pool.queue_close ≡ true → t.pool.queue_close ≡ true
  pub destroyer :
      destroys t.next ≡ true
      → (t.pool.queue_close ≡ true) × ((destroys (s.pc i) ≡ true) ⊎ (s.pool.queue_close ≡ false))

module _ {s : System} {xs ys : List (Ptr × Bytes)} {i : ℕ} {t : Turn} (th : Threads s xs)
    (f : Fair s xs i t ys) where
  -- A thread that still waits after the turn, and was not the one that made it.
  still-Announcing :
      (s.pool.pool_close ≡ false) ⊎ Announcing s.pc
      → (t.not_empty ≡ false) ⊎ (t.not_full ≡ false)
      → (t.pool.pool_close ≡ false) ⊎ Announcing (moved s.pc i t)
  unfolding moved
  still-Announcing was asleep = elim f.closes [
    | inl open_ ↦ inl open_
    | inr (inr now) ↦ inr (i, ground arith)
    | inr (inl same) ↦ elim was [
      | inl open_ ↦ inl (ground arith)
      | inr (j, e) ↦ elim (Bool-cases (i == j)) [
        | inr ne ↦ inr (j, ground arith)
        | inl me ↦ absurd (ground (arith, f.announces))
      ]
    ]
  ]

  -- Two threads never hold one job: the one taken was linked in the queue.
  taken_apart :
      (j k : ℕ) (p : Ptr) (b c : Bytes)
      → (i == j) ≡ true
      → (i == k) ≡ false
      → moved s.pc i t j ≡ busy p b
      → moved s.pc i t k ≡ busy p c
      → ⊥
  unfolding moved
  taken_apart j k p b c me other a d =
      let old : s.pc k ≡ busy p c = ground arith in
      let (_, _, linked) = f.takes p b (ground arith) in cc ((th.busy_live k p c old).1, linked)

  one_owner :
      (j k : ℕ) (p : Ptr) (b c : Bytes)
      → moved s.pc i t j ≡ busy p b
      → moved s.pc i t k ≡ busy p c
      → j ≡ k
  one_owner j k p b c a d = elim (Bool-cases (i == j)) [
    | inl mj ↦ elim (Bool-cases (i == k)) [
      | inl mk ↦ ground arith
      | inr nk ↦ absurd (taken_apart j k p b c mj nk a d)
    ]
    | inr nj ↦ elim (Bool-cases (i == k)) [
      | inl mk ↦ absurd (taken_apart k j p c b mk nj d a)
      | inr nk ↦ unfold moved in ground (arith, th.busy_own j k p b c)
    ]
  ]

  waiting_worker :
      (j : ℕ)
      → (i == j) ≡ false
      → moved s.pc i t j ≡ work_wait
      → (s.pc j ≡ work_wait) × (t.not_empty ≡ false)
  unfolding moved
  waiting_worker j ne e = ground arith

  waiting_adder :
      (j : ℕ) (a : Bytes) (l : ℕ)
      → (i == j) ≡ false
      → moved s.pc i t j ≡ add_wait a l
      → (s.pc j ≡ add_wait a l) × (t.not_full ≡ false)
  unfolding moved
  waiting_adder j a l ne e = ground arith

  moved_self : (j : ℕ) → (i == j) ≡ true → moved s.pc i t j ≡ t.next
  unfolding moved
  moved_self j me = rw me

  pub Fair-Threads : Threads (after s i t) ys
  unfolding moved
  Fair-Threads = record {
    busy_live = λ j p b e. elim (Bool-cases (i == j)) [
      | inl me ↦ let (live, out, _) = f.takes p b (ground arith) in (live, out)
      | inr ne ↦ f.spares j p b ne (ground arith)
    ];
    busy_own = one_owner;
    work_waits = λ j e. elim (Bool-cases (i == j)) [
      | inl me ↦ let (c, o) = f.idles (ground arith) in (c, inl o)
      | inr ne ↦
          let (was, asleep) = waiting_worker j ne e in
          let (c, o) = th.work_waits j was in
          (f.wakes_workers asleep c, still-Announcing o (inl asleep))
    ];
    add_waits = λ j a l e. elim (Bool-cases (i == j)) [
      | inl me ↦ let (c, o) = f.blocks a l (ground arith) in (c, inl o)
      | inr ne ↦
          let (was, asleep) = waiting_adder j a l ne e in
          let (c, o) = th.add_waits j a l was in
          (f.wakes_adders asleep c, still-Announcing o (inr asleep))
    ];
    destroy_waits = λ j e. ground (arith, f.drains, f.wakes_destroyer, th.destroy_waits j);
    destroyer_unique = λ j k a b. ground (
      arith,
      f.destroyer,
      th.destroyer_unique j k,
      th.destroyer_unique j i,
      th.destroyer_unique i k,
      th.destroyer_closed j,
      th.destroyer_closed k,
    );
    destroyer_closed = λ j e. ground (arith, f.destroyer, f.keeps_closed, th.destroyer_closed j);
  }
