-- ===== src/Examples/Workers.antt =====
-- An item put in a queue and taken out, lists of free items, and two connections dispatched.
use tdm.Base.{
  ℕ, ◌+◌, ◌-◌, ◌≤◌, ◌<◌, ◌≡◌, ◌⊎◌, refl, true, false, none, some, List, [], ◌∷◌, ◌++◌, ◌==◌,
  if◌then◌else◌, arith,
}
use tdm.Base.Int.{◌+ℤ◌}
use tdm.Chain.{Ptr, null, node, Heap, has}
use tdm.Worker.Items.{items_per_alloc, blank, Free, cqi_new_base, Memory}
use tdm.Worker.FreeList.{IsFree, block, new-block}
use tdm.Worker.Startup.{
  creating, testing, asleep, Startup, enter, create, wait, sleep, at_start, Reachable, starts,
  steps, IsComplete, startup-IsComplete,
}
use tdm.ThreadPool.{Bytes}
use tdm.ThreadPool.Freeing.{free_jobs, IsFreed, free_jobs-IsFreed}
use tdm.Worker.Dispatch.{
  Event, pushes, notifies, turn, run, empty, happen, push, notify, next_thread, handle, dealt,
  taken, handle-run,
}

abbrev no_free : Free
no_free = record { heap = λ _. none; list = null }

-- Memory that holds no zero.
abbrev dirty : Memory
dirty a = node (record { sfd = a; init_state = 1; event_flags = 2; mode = 3; buff = 7 ∷ [] }) a

new-block_example :
    let (item, g) = cqi_new_base no_free 100 dirty in
    (item ≡ 100)
    × (g.heap item ≡ some (node blank null))
    × IsFree g (block dirty 127 (100 + 1))
    × (has item (block dirty 127 (100 + 1)) ≡ false)
    × ((a : Ptr) → (a < 100) ⊎ (100 + items_per_alloc ≤ a) → g.heap a ≡ no_free.heap a)
new-block_example =
    new-block no_free 100 dirty (record { linked = tt; starts = refl }) (omega arith)

-- Two of three items go to the thread 0 of two; its byte for the first is written, and its handler runs.
abbrev some_events : List (Event ℕ)
some_events =
    pushes 7
    ∷ notifies 0 true
    ∷ pushes 8
    ∷ pushes 9
    ∷ turn 0
    ∷ notifies 1 false
    ∷ notifies 0 true
    ∷ []

handle-run_example :
    (dealt 2 0 0 some_events
      ≡ taken 2 0 empty some_events ++ ((run 2 empty some_events).threads 0).queue)
    × (0 < ((run 2 empty some_events).threads 0).bytes
        → let m = (run 2 empty some_events).threads 0 in
          (x : ℕ) × (q : List ℕ) × (m.queue ≡ x ∷ q)
          × (handle m ≡ (some x, record { queue = q; bytes = m.bytes - 1 })))
handle-run_example = handle-run 2 some_events 0

taken_first : taken 2 0 empty some_events ≡ 7 ∷ []
unfolding happen push notify next_thread ◌+ℤ◌ handle
taken_first = refl

some_byte : ((run 2 empty some_events).threads 0).bytes ≡ 1
unfolding run happen push notify next_thread ◌+ℤ◌ handle
some_byte = refl

-- A call that starts one thread, which has not registered yet.
abbrev one_thread : ℕ → ℕ
one_thread k = 1

abbrev started : Startup
started = record { main = creating 0; init_count = 0; created = 0; registered = 0; stale = 0 }

abbrev made : Startup
made = record started { created = 1 }

abbrev tested : Startup
tested = record made { main = testing 0 }

abbrev sleeping : Startup
sleeping = record made { main = asleep 0 }

sleeping-Reachable : Reachable one_thread 1 sleeping
sleeping-Reachable =
    steps tested sleeping
      (steps made tested
        (steps started made (steps (at_start 1) started starts (enter (at_start 1) 0 refl))
          (create started 0 refl (omega arith)))
        (wait made 0 refl refl))
      (sleep tested 0 refl (omega arith))

startup-IsComplete_example : IsComplete one_thread sleeping
startup-IsComplete_example = startup-IsComplete one_thread 1 sleeping sleeping-Reachable

-- Two jobs that are left in a queue, at 4 and at 9.
abbrev two_jobs : List (Ptr × Bytes)
two_jobs = (4, 1 ∷ []) ∷ (9, 2 ∷ []) ∷ []

abbrev heap_of_jobs : Heap Bytes
heap_of_jobs a =
    if a == 4 then some (node (1 ∷ []) 9) else if a == 9 then some (node (2 ∷ []) null) else none

free_jobs-IsFreed_example :
    (g : Heap Bytes) × ((free_jobs 3 heap_of_jobs 4 ≡ some (g, 4 ∷ 9 ∷ []))
      × IsFreed heap_of_jobs two_jobs g)
free_jobs-IsFreed_example =
    free_jobs-IsFreed two_jobs 3 heap_of_jobs
      (omega arith, refl, refl, (omega arith, refl, refl, tt)) (omega arith)
