-- ===== src/ThreadPool/Inv/Jobs.antt =====
-- The queue under the sections that change it.
use tdm.Base.{suc, ◌-◌, ◌≡◌, ◌≢◌, none, List, [], ◌∷◌, ◌++◌, length, arith, ◌==◌, true, false}
use tdm.Chain.{write, Ptr, null, node, has, first, Queue, Holds}
use tdm.Chain.Queues.{
  not-has_of_none, head-ne-null, put_spares, put_empty, put_behind, take_last, take_first,
}
use tdm.ThreadPool.{Bytes, Pool, enqueue, dequeue}

-- `threadpool_add_job` puts the job behind the others.
pub enqueue-Holds :
    (q : Queue Bytes) (xs : List (Ptr × Bytes)) (fresh : Ptr) (b : Bytes)
    → Holds q xs
    → fresh ≢ null
    → q.heap fresh ≡ none
    → Holds (enqueue q fresh b) (xs ++ (fresh, b) ∷ [])
unfolding enqueue
enqueue-Holds q [] fresh b h ne free = rw h.starts (put_empty q.heap fresh b ne)
enqueue-Holds q ((p, v) ∷ xs) fresh b h ne free =
    let more : (q.head == null) ≡ false = ground (arith, head-ne-null q (p, v) xs h) in
    rw more (
      put_behind q (p, v) xs fresh b h (not-has_of_none q.heap ((p, v) ∷ xs) fresh h.linked free)
        ne)

-- A worker that finds a job unlinks the first one, and clears both pointers after the last.
pub dequeue-Holds :
    (s : Pool) (p : Ptr) (b : Bytes) (xs : List (Ptr × Bytes))
    → Holds s.jobs ((p, b) ∷ xs)
    → s.queue_cur_num ≡ suc (length xs)
    → Holds (dequeue s (node b (first xs))).pool.jobs xs
unfolding dequeue
dequeue-Holds s p b [] h c =
    let done : ((s.queue_cur_num - 1) == 0) ≡ true = ground arith in
    rw done (take_last s.jobs (p, b) h)
dequeue-Holds s p b (y ∷ xs) h c =
    let more : ((s.queue_cur_num - 1) == 0) ≡ false = ground arith in
    rw more (take_first s.jobs (p, b) y xs h)

-- Adding a job leaves the nodes outside the queue as they were.
pub enqueue_spares :
    (q : Queue Bytes) (xs : List (Ptr × Bytes)) (fresh a : Ptr) (b : Bytes)
    → Holds q xs
    → a ≢ fresh
    → has a xs ≡ false
    → (enqueue q fresh b).heap a ≡ q.heap a
unfolding enqueue write
enqueue_spares q [] fresh a b h ne out = rw h.starts (ground arith)
enqueue_spares q ((p, v) ∷ xs) fresh a b h ne out =
    let more : (q.head == null) ≡ false = ground (arith, head-ne-null q (p, v) xs h) in
    rw more (put_spares q (p, v) xs fresh a b h ne out)
