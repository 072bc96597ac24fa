-- ===== src/Worker/Startup.antt =====
-- How src/thread.c starts its worker threads: `thread_init` with `create_worker`,
-- `register_thread_initialized` and `wait_for_thread_registration`, called twice by
-- `thread_init_pool`. The threads of one call do the same and are counted. Each step is what one
-- thread does while it holds `init_lock`, or one call without it.
use tdm.Base.{ℕ, suc, ◌+◌, ◌-◌, ◌≤◌, ◌<◌, ◌≡◌, refl, ap, sym, subst, arith}

-- Where the main thread is: in front of a call of `thread_init`, with so many to come; in its loop
-- that creates threads; in front of the test of `wait_for_thread_registration`; asleep in
-- `pthread_cond_wait`.
pub data Main : Type 0 where
  outside creating testing asleep : ℕ → Main

-- `init_count`; the threads that the call has created, and those of them that have registered; and the
-- threads of earlier calls that have not registered yet.
pub record Startup : Type 0 where
  pub main : Main
  pub init_count : ℕ
  pub created : ℕ
  pub registered : ℕ
  pub stale : ℕ

-- `pthread_cond_signal`.
abbrev pub woken : Main → Main
woken (outside k) = outside k
woken (creating k) = creating k
woken (testing k) = testing k
woken (asleep k) = testing k

-- The calls, each with its number of threads: `thread_init_pool` has `RT_POOL_NUM` and `POOL_NUM`.
pub data Step (threads : ℕ → ℕ) : Startup → Startup → Type 0 where
  -- `init_count = 0`.
  enter :
      (s : Startup) (k : ℕ)
      → s.main ≡ outside (suc k)
      → Step threads s (record {
        main = creating k;
        init_count = 0;
        created = 0;
        registered = 0;
        stale = s.stale + s.created - s.registered;
      })
  -- `create_worker`.
  create :
      (s : Startup) (k : ℕ)
      → s.main ≡ creating k
      → s.created < threads k
      → Step threads s (record s { created = suc s.created })
  -- `pthread_mutex_lock` behind the loop.
  wait :
      (s : Startup) (k : ℕ)
      → s.main ≡ creating k
      → s.created ≡ threads k
      → Step threads s (record s { main = testing k })
  -- `init_count < nthreads`.
  sleep :
      (s : Startup) (k : ℕ)
      → s.main ≡ testing k
      → s.init_count < threads k
      → Step threads s (record s { main = asleep k })
  -- Otherwise, `thread_init` returns.
  leave :
      (s : Startup) (k : ℕ)
      → s.main ≡ testing k
      → threads k ≤ s.init_count
      → Step threads s (record s { main = outside k })
  -- `pthread_cond_wait` may return without a signal.
  wake : (s : Startup) (k : ℕ) → s.main ≡ asleep k → Step threads s (record s { main = testing k })
  -- `register_thread_initialized`, of a thread of this call and of an earlier one.
  register :
      (s : Startup)
      → s.registered < s.created
      → Step threads s (record s {
        main = woken s.main;
        init_count = suc s.init_count;
        registered = suc s.registered;
      })
  register_stale :
      (s : Startup) (n : ℕ)
      → s.stale ≡ suc n
      → Step threads s (record s { main = woken s.main; init_count = suc s.init_count; stale = n })

-- The program before its calls.
abbrev pub at_start : ℕ → Startup
at_start calls = record {
  main = outside calls;
  init_count = 0;
  created = 0;
  registered = 0;
  stale = 0;
}

pub data Reachable (threads : ℕ → ℕ) (calls : ℕ) : Startup → Type 0 where
  starts : Reachable threads calls (at_start calls)
  steps : (s t : Startup) → Reachable threads calls s → Step threads s t → Reachable threads calls t

-- Where the main thread is, and how many threads there are: created, and registered.
abbrev pub IsAt : (ℕ → ℕ) → Main → ℕ → ℕ → Type 0
IsAt threads (outside k) c r = c ≡ r
IsAt threads (creating k) c r = c ≤ threads k
IsAt threads (testing k) c r = c ≡ threads k
IsAt threads (asleep k) c r = (c ≡ threads k) × (r < threads k)

abbrev pub IsCounted : (ℕ → ℕ) → Startup → Type 0
IsCounted threads s =
    IsAt threads s.main s.created s.registered
    × ((s.init_count ≡ s.registered) × ((s.registered ≤ s.created) × (s.stale ≡ 0)))

woken-IsAt :
    (threads : ℕ → ℕ) (m : Main) (c r : ℕ)
    → r < c
    → IsAt threads m c r
    → IsAt threads (woken m) c (suc r)
woken-IsAt threads (outside k) c r h e = absurd (omega arith)
woken-IsAt threads (creating k) c r h e = e
woken-IsAt threads (testing k) c r h e = e
woken-IsAt threads (asleep k) c r h (e, less) = e

-- Where the main thread is, when that is known.
IsAt-main :
    (threads : ℕ → ℕ) (s : Startup) (m : Main)
    → s.main ≡ m
    → IsCounted threads s
    → IsAt threads m s.created s.registered
IsAt-main threads s m e (is_at, rest) = subst (λ x. IsAt threads x s.created s.registered) e is_at

Step-IsCounted :
    (threads : ℕ → ℕ) (s t : Startup) → IsCounted threads s → Step threads s t → IsCounted threads t
Step-IsCounted threads s _ (is_at, (count, (le, none_stale))) (enter _ k e) =
    let all_in = IsAt-main threads s (outside (suc k)) e (is_at, (count, (le, none_stale))) in
    (omega arith, (refl, (omega arith, omega arith)))
Step-IsCounted threads s _ (is_at, (count, (le, none_stale))) (create _ k e less) =
    let more : suc s.created ≤ threads k = omega arith in
    (
      subst (λ m. IsAt threads m (suc s.created) s.registered) (sym e) more,
      (count, (omega arith, none_stale)),
    )
Step-IsCounted threads s _ (is_at, rest) (wait _ k e all) = (all, rest)
Step-IsCounted threads s _ (is_at, (count, rest)) (sleep _ k e less) =
    let all_made = IsAt-main threads s (testing k) e (is_at, (count, rest)) in
    ((all_made, omega arith), (count, rest))
Step-IsCounted threads s _ (is_at, (count, (le, none_stale))) (leave _ k e enough) =
    let all_made = IsAt-main threads s (testing k) e (is_at, (count, (le, none_stale))) in
    (omega arith, (count, (le, none_stale)))
Step-IsCounted threads s _ (is_at, rest) (wake _ k e) =
    ((IsAt-main threads s (asleep k) e (is_at, rest)).0, rest)
Step-IsCounted threads s _ (is_at, (count, (le, none_stale))) (register _ less) = (
  woken-IsAt threads s.main s.created s.registered less is_at,
  (ap suc count, (omega arith, none_stale)),
)
Step-IsCounted threads s _ (is_at, (count, (le, none_stale))) (register_stale _ n e) =
    absurd (omega arith)

-- In every state that the program comes to.
Reachable-IsCounted :
    (threads : ℕ → ℕ) (calls : ℕ) (s : Startup) → Reachable threads calls s → IsCounted threads s
Reachable-IsCounted threads calls _ starts = (refl, (refl, (omega arith, refl)))
Reachable-IsCounted threads calls _ (steps s t before step) =
    Step-IsCounted threads s t (Reachable-IsCounted threads calls s before) step

-- What the main thread may rely on.
abbrev pub IsComplete : (ℕ → ℕ) → Startup → Type 0
IsComplete threads s =
    ((k : ℕ) → s.main ≡ outside k → (s.registered ≡ s.created) × (s.stale ≡ 0))
    × (((k : ℕ) → s.main ≡ testing k → threads k ≤ s.init_count → s.registered ≡ threads k)
        × ((k : ℕ)
            → s.main ≡ asleep k
            → (s.registered < s.created)
              × (Step threads s (record s {
                main = testing k;
                init_count = suc s.init_count;
                registered = suc s.registered;
              }))))

-- Whatever the order of the threads, and however often `pthread_cond_wait` returns without a signal:
-- when the main thread is outside of `thread_init`, every thread that the last call has created has
-- registered, and none of an earlier call is left that could count for the next; it leaves
-- `wait_for_thread_registration` only when all of them have; and when it sleeps there is one that has
-- not, whose step wakes it.
pub startup-IsComplete :
    (threads : ℕ → ℕ) (calls : ℕ) (s : Startup) → Reachable threads calls s → IsComplete threads s
startup-IsComplete threads calls s r =
    let counted = Reachable-IsCounted threads calls s r in
    let (is_at, (count, (le, none_stale))) = counted in
    (
      λ k e. (sym (IsAt-main threads s (outside k) e counted), none_stale),
      (
        λ k e enough. (let all_made = IsAt-main threads s (testing k) e counted in omega arith),
        λ k e.
            (let (all_made, less) = IsAt-main threads s (asleep k) e counted in
              let waits : s.registered < s.created = omega arith in
              (
                waits,
                subst
                    (λ m. Step threads s (record s {
                      main = m;
                      init_count = suc s.init_count;
                      registered = suc s.registered;
                    }))
                    (ap woken e) (register s waits),
              )),
      ),
    )
