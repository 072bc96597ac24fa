-- ===== src/ThreadPool/Freeing.antt =====
-- The end of `threadpool_destroy` of src/threadpool.c: the loop that frees the jobs that are left in
-- the queue, on fuel. Reading memory that is not allocated gives `none`, and so does running on.
use tdm.Base.{
  ℕ, zero, suc, ◌≡◌, ◌<◌, refl, ◌∙◌, false, Option, none, some, List, [], ◌∷◌, ◌==◌, length,
  if◌then◌else◌, arith,
}
use tdm.Chain.{Ptr, null, Node, Heap, write, has, first, Linked, frame}
use tdm.Config.{◌>>=◌}
use tdm.ThreadPool.{Bytes}

-- The memory afterwards and the jobs freed, in order.
abbrev pub Freed : Type 0
Freed = Heap Bytes × List Ptr

abbrev pub freed_first : Ptr → Freed → Freed
freed_first p (h, ps) = (h, p ∷ ps)

-- A turn of the loop on the job at `p`; `next` is the loop that goes on.
abbrev pub free_turn :
    Heap Bytes → Ptr → Option (Node Bytes) → (Heap Bytes → Ptr → Option Freed) → Option Freed
free_turn h p none next = none
free_turn h p (some job) next = next (write h p none) job.next >>= λ r. some (freed_first p r)

-- `while (pool->head != NULL)`.
unfoldable pub free_jobs : ℕ → Heap Bytes → Ptr → Option Freed
free_jobs zero h p = none
free_jobs (suc fuel) h p =
    let rest = free_turn h p (h p) (free_jobs fuel) in if p == null then some (h, []) else rest

abbrev pub addresses : List (Ptr × Bytes) → List Ptr
addresses [] = []
addresses ((p, _) ∷ xs) = p ∷ addresses xs

-- The memory without the jobs.
abbrev pub IsFreed : Heap Bytes → List (Ptr × Bytes) → Heap Bytes → Type 0
IsFreed h xs g = (a : Ptr) → g a ≡ (if has a xs then none else h a)

one_more :
    (h : Heap Bytes) (p : Ptr) (v : Bytes) (xs : List (Ptr × Bytes)) (a : Ptr)
    → (if has a xs then none else write h p none a) ≡ (if has a ((p, v) ∷ xs) then none else h a)
unfolding write
one_more h p v xs a = ground arith

-- With more fuel than there are jobs, the loop ends at the end of the list, having freed each job of
-- the queue once, in order, and nothing else; it reads no job that it has freed.
pub free_jobs-IsFreed :
    (xs : List (Ptr × Bytes)) (fuel : ℕ) (h : Heap Bytes)
    → Linked h xs
    → length xs < fuel
    → (g : Heap Bytes) × ((free_jobs fuel h (first xs) ≡ some (g, addresses xs)) × IsFreed h xs g)
unfolding free_jobs
free_jobs-IsFreed xs zero h l less = absurd (omega arith)
free_jobs-IsFreed [] (suc fuel) h l less = (h, (refl, λ a. refl))
free_jobs-IsFreed ((p, v) ∷ xs) (suc fuel) h (ne, is, apart, l) less =
    let (g, (runs, freed)) =
      free_jobs-IsFreed xs fuel (write h p none) (frame h xs p none apart l) (omega arith) in
    let some_job : (p == null) ≡ false = ground arith in
    (g, (rw (some_job, is, runs) refl, λ a. freed a ∙ one_more h p v xs a))
