-- ===== src/Worker/Dispatch.antt =====
-- `dispatch_conn_new` and `thread_libevent_process` of src/thread.c, `conn_new_func_worker` and
-- `work_func`: new connections go to the 20 connection threads in turn, texts to the 10 log threads.
-- The queue of a thread is a list here (`Fifo` proves that its pointers implement one), and its pipe
-- is the number of bytes in it.
--
-- `main` alone dispatches connections. An item is pushed, and then a byte is written to the pipe: these
-- are two steps, between which the threads may run, so that a thread may find an item without a byte. A
-- failed write leaves the item behind.
use tdm.Base.{
  ℕ, zero, suc, ap, ◌∙◌, sym, append_assoc, append-nil, ◌+◌, ◌-◌, ◌/◌, ◌%◌, ◌≤◌, ◌<◌, ◌≡◌, ◌≢◌,
  refl, Bool, Option, none, some, List, [], ◌∷◌, ◌++◌, length, length-append, arith, ◌==◌,
  if◌then◌else◌, Bool-cases, inl, inr,
}
use native.Mathlib.Nat.{add-mod-mod}
use tdm.Base.Int.{ℤ, pos, negsuc, pos_part, ◌+ℤ◌}

-- `RT_POOL_NUM` and `POOL_NUM`
abbrev pub rt_pool_num : ℕ
rt_pool_num = 20

abbrev pub pool_num : ℕ
pool_num = 10

-- `(last + 1) % n`: `last` is -1 before the first item.
unfoldable pub next_thread : ℕ → ℤ → ℕ
next_thread n last = pos_part (last +ℤ pos 1) % n

-- One thread: the items in its queue, and the bytes in its pipe.
pub record Mailbox (A : Type 0) : Type 0 where
  pub queue : List A
  pub bytes : ℕ

-- `owed`: how many items of a thread were pushed whose byte is still to be written.
pub record Pool (A : Type 0) : Type 0 where
  pub last_thread : ℤ
  pub threads : ℕ → Mailbox A
  pub owed : ℕ → ℕ

module _ {A : Type 0} where
  -- The choice of the next thread, and `cq_push` on its queue.
  unfoldable pub push : ℕ → Pool A → A → Pool A
  push n p item =
      let tid = next_thread n p.last_thread in
      record {
        last_thread = pos tid;
        threads = λ i.
            if i == tid
            then record { queue = (p.threads i).queue ++ item ∷ []; bytes = (p.threads i).bytes }
            else p.threads i;
        owed = λ i. if i == tid then suc (p.owed i) else p.owed i;
      }

  -- The `write` of one byte to the pipe of a thread, if an item was pushed for it before.
  unfoldable pub notify : Pool A → ℕ → Bool → Pool A
  notify p tid written = if p.owed tid == 0 then p else record {
    last_thread = p.last_thread;
    threads = λ i.
        if i == tid
        then record {
          queue = (p.threads i).queue;
          bytes = (p.threads i).bytes + (if written then 1 else 0);
        }
        else p.threads i;
    owed = λ i. if i == tid then p.owed i - 1 else p.owed i;
  }

  -- The whole of it, when nothing happens in between.
  unfoldable pub dispatch : ℕ → Pool A → A → Bool → Pool A
  dispatch n p item written = notify (push n p item) (next_thread n p.last_thread) written

  handle_byte : List A → ℕ → Option A × Mailbox A
  handle_byte q zero = (none, record { queue = q; bytes = 0 })
  handle_byte [] (suc b) = (none, record { queue = []; bytes = b })
  handle_byte (x ∷ q) (suc b) = (some x, record { queue = q; bytes = b })

  -- The handler of a thread on its pipe: it reads one byte and pops one item. `none` is the early
  -- return on a read that gives no byte, and on an empty queue.
  unfoldable pub handle : Mailbox A → Option A × Mailbox A
  unfolding handle_byte
  handle m = handle_byte m.queue m.bytes

-- What happens to the threads, in the order in which it happens.
pub data Event (A : Type 0) : Type 0 where
  pushes : A → Event A  -- an item is pushed to the next thread
  notifies : ℕ → Bool → Event A  -- the byte for an item of a thread; whether it is written
  turn : ℕ → Event A  -- the handler of a thread runs

next-pos : (n t : ℕ) → next_thread n (pos t) ≡ (t + 1) % n
unfolding next_thread ◌+ℤ◌
next-pos n t = ap (λ k. k % n) (plus_one t)
  where
    plus_one : (t : ℕ) → pos_part (pos t +ℤ pos 1) ≡ t + 1
    plus_one t = ground arith

next_turn :
    (n k : ℕ) (last : ℤ)
    → next_thread n last ≡ k % n
    → next_thread n (pos (next_thread n last)) ≡ suc k % n
next_turn n k last e =
    let there : (k % n + 1) % n ≡ (1 + k % n) % n = ap (λ t. t % n) (omega arith) in
    let behind : (1 + k) % n ≡ suc k % n = ap (λ t. t % n) (omega arith) in
    next-pos n (next_thread n last) ∙ ap (λ t. (t + 1) % n) e ∙ there ∙ add-mod-mod 1 k n ∙ behind

start_turn : (n : ℕ) → next_thread n (negsuc 0) ≡ 0 % n
unfolding next_thread ◌+ℤ◌
start_turn n = refl

-- The thread whose turn it is gets one item more.
share : (k i : ℕ) → i < 20 → (k + 20 - i) / 20 ≡ (k + 19 - i) / 20 + (if i == k % 20 then 1 else 0)
share k i lt = elim (Bool-cases (i == k % 20)) [
  | inl mine ↦ let e : i ≡ k % 20 = ground arith in rw mine (omega arith)
  | inr other ↦ let e : i ≢ k % 20 = ground arith in rw other (omega arith)
]

module _ {A : Type 0} where
  abbrev pub empty : Pool A
  empty = record {
    last_thread = negsuc 0;
    threads = λ _. record { queue = []; bytes = 0 };
    owed = λ _. 0;
  }

  unfoldable pub happen : ℕ → Pool A → Event A → Pool A
  happen n p (pushes x) = push n p x
  happen n p (notifies t written) = notify p t written
  happen n p (turn t) = record p {
    threads = λ i. if i == t then (handle (p.threads i)).1 else p.threads i;
  }

  unfoldable pub run : ℕ → Pool A → List (Event A) → Pool A
  run n p [] = p
  run n p (e ∷ es) = run n (happen n p e) es

  -- A pipe never holds more bytes than there are items to take, those still to come included.
  abbrev pub IsFed : Mailbox A → ℕ → Type 0
  IsFed m owed = m.bytes + owed ≤ length m.queue

  handle-IsFed : (m : Mailbox A) (owed : ℕ) → IsFed m owed → IsFed (handle m).1 owed
  unfolding handle
  handle-IsFed m owed h = fed m.queue m.bytes h
    where
      fed : (q : List A) (b : ℕ) → b + owed ≤ length q → IsFed (handle_byte q b).1 owed
      fed q zero h = omega arith
      fed [] (suc b) h = absurd (omega arith)
      fed (x ∷ q) (suc b) h = omega arith

  happen-IsFed :
      (n : ℕ) (p : Pool A) (e : Event A)
      → ((i : ℕ) → IsFed (p.threads i) (p.owed i))
      → (i : ℕ) → IsFed ((happen n p e).threads i) ((happen n p e).owed i)
  unfolding happen push notify
  happen-IsFed n p (pushes x) h i = ground (arith, h i, length-append (p.threads i).queue (x ∷ []))
  happen-IsFed n p (notifies t written) h i = ground (arith, h i)
  happen-IsFed n p (turn t) h i = ground (arith, h i, handle-IsFed (p.threads i) (p.owed i))

  run-IsFed :
      (n : ℕ) (p : Pool A) (es : List (Event A))
      → ((i : ℕ) → IsFed (p.threads i) (p.owed i))
      → (i : ℕ) → IsFed ((run n p es).threads i) ((run n p es).owed i)
  unfolding run
  run-IsFed n p [] h i = h i
  run-IsFed n p (e ∷ es) h i = run-IsFed n (happen n p e) es (happen-IsFed n p e h) i

  handle_first :
      (m : Mailbox A)
      → m.bytes ≤ length m.queue
      → 0 < m.bytes
      → (x : A) × (q : List A) × (m.queue ≡ x ∷ q)
        × (handle m ≡ (some x, record { queue = q; bytes = m.bytes - 1 }))
  unfolding handle
  handle_first m h some_left = found m.queue m.bytes h some_left
    where
      found :
          (q : List A) (b : ℕ)
          → b ≤ length q
          → 0 < b
          → (x : A) × (r : List A) × (q ≡ x ∷ r)
            × (handle_byte q b ≡ (some x, record { queue = r; bytes = b - 1 }))
      found q zero h s = absurd (omega arith)
      found [] (suc b) h s = absurd (omega arith)
      found (x ∷ q) (suc b) h s = (x, q, refl, ground arith)

  abbrev listed : Option A → List A
  listed none = []
  listed (some x) = x ∷ []

  -- The items that are dealt out to the thread `i`, when `k` were dealt out before: item number `k` goes
  -- to thread `k % n`.
  abbrev pub dealt : ℕ → ℕ → ℕ → List (Event A) → List A
  dealt n k i [] = []
  dealt n k i (pushes x ∷ es) =
      let rest = dealt n (suc k) i es in if i == (k % n) then x ∷ rest else rest
  dealt n k i (notifies t written ∷ es) = dealt n k i es
  dealt n k i (turn t ∷ es) = dealt n k i es

  abbrev taken_now : ℕ → Pool A → Event A → List A
  taken_now i p (pushes x) = []
  taken_now i p (notifies t written) = []
  taken_now i p (turn t) = if i == t then listed (handle (p.threads i)).0 else []

  -- What the handler of the thread `i` takes, in order.
  abbrev pub taken : ℕ → ℕ → Pool A → List (Event A) → List A
  taken n i p [] = []
  taken n i p (e ∷ es) = taken_now i p e ++ taken n i (happen n p e) es

  handle-listed : (m : Mailbox A) → m.queue ≡ listed (handle m).0 ++ (handle m).1.queue
  unfolding handle
  handle-listed m = split m.queue m.bytes
    where
      split : (q : List A) (b : ℕ) → q ≡ listed (handle_byte q b).0 ++ (handle_byte q b).1.queue
      split q zero = refl
      split [] (suc b) = refl
      split (x ∷ q) (suc b) = refl

  push_turn :
      (n k : ℕ) (p : Pool A) (x : A)
      → next_thread n p.last_thread ≡ k % n
      → next_thread n (push n p x).last_thread ≡ suc k % n
  unfolding push
  push_turn n k p x e = next_turn n k p.last_thread e

  push-dealt :
      (n k i : ℕ) (p : Pool A) (x : A) (rest : List A)
      → next_thread n p.last_thread ≡ k % n
      → (p.threads i).queue ++ (if i == (k % n) then x ∷ rest else rest)
        ≡ ((push n p x).threads i).queue ++ rest
  unfolding push
  push-dealt n k i p x rest e = elim (Bool-cases (i == (k % n))) [
    | inl mine ↦ rw (e, mine) (sym (append_assoc (p.threads i).queue (x ∷ []) rest))
    | inr other ↦ rw (e, other) refl
  ]

  notify-queue :
      (p : Pool A) (t i : ℕ) (written : Bool)
      → ((notify p t written).threads i).queue ≡ (p.threads i).queue
  unfolding notify
  notify-queue p t i written = ground arith

  notify-last :
      (p : Pool A) (t : ℕ) (written : Bool) → (notify p t written).last_thread ≡ p.last_thread
  unfolding notify
  notify-last p t written = ground arith

  turn-listed :
      (n i t : ℕ) (p : Pool A)
      → (p.threads i).queue ≡ taken_now i p (turn t) ++ ((happen n p (turn t)).threads i).queue
  unfolding happen
  turn-listed n i t p = elim (Bool-cases (i == t)) [
    | inl mine ↦ rw mine (handle-listed (p.threads i))
    | inr other ↦ rw other refl
  ]

  run-dealt :
      (n k i : ℕ) (p : Pool A) (es : List (Event A))
      → next_thread n p.last_thread ≡ k % n
      → (p.threads i).queue ++ dealt n k i es ≡ taken n i p es ++ ((run n p es).threads i).queue
  unfolding run happen
  run-dealt n k i p [] e = append-nil (p.threads i).queue
  run-dealt n k i p (pushes x ∷ es) e =
      push-dealt n k i p x (dealt n (suc k) i es) e
      ∙ run-dealt n (suc k) i (push n p x) es (push_turn n k p x e)
  run-dealt n k i p (notifies t written ∷ es) e =
      ap (λ q. q ++ dealt n k i es) (sym (notify-queue p t i written))
      ∙ run-dealt n k i (notify p t written) es (ap (next_thread n) (notify-last p t written) ∙ e)
  run-dealt n k i p (turn t ∷ es) e =
      let after = happen n p (turn t) in
      ap (λ q. q ++ dealt n k i es) (turn-listed n i t p)
      ∙ append_assoc (taken_now i p (turn t)) (after.threads i).queue (dealt n k i es)
      ∙ ap (λ q. taken_now i p (turn t) ++ q) (run-dealt n k i after es e)
      ∙ sym (
          append_assoc (taken_now i p (turn t)) (taken n i after es)
            ((run n after es).threads i).queue)

  -- After any sequence of pushes, writes of bytes and turns of handlers from the start, with `n` threads,
  -- the items that the handler of a thread has taken, and behind them those in its queue, are the items
  -- whose number is that of the thread up to a multiple of `n`, in the order in which they were pushed;
  -- and a handler that finds a byte in its pipe takes the first item of its queue: the early return on an
  -- empty queue is never reached.
  pub handle-run :
      (n : ℕ) (es : List (Event A)) (i : ℕ)
      → (dealt n 0 i es ≡ taken n i empty es ++ ((run n empty es).threads i).queue)
        × (0 < ((run n empty es).threads i).bytes
            → let m = (run n empty es).threads i in
              (x : A) × (q : List A) × (m.queue ≡ x ∷ q)
              × (handle m ≡ (some x, record { queue = q; bytes = m.bytes - 1 })))
  handle-run n es i = (
    run-dealt n 0 i empty es (start_turn n),
    λ some_left.
        let fed = run-IsFed n empty es (λ _. omega arith) i in
        handle_first _ (omega arith) some_left,
  )

  unfoldable pub dispatch_all : ℕ → Pool A → List (A × Bool) → Pool A
  dispatch_all n p [] = p
  dispatch_all n p ((x, written) ∷ xs) = dispatch_all n (dispatch n p x written) xs

  -- What `k` dispatches have done to the threads.
  record Shared (k : ℕ) (p : Pool A) : Type 0 where
    turn_is : next_thread rt_pool_num p.last_thread ≡ k % 20
    lengths : (i : ℕ) → i < 20 → length (p.threads i).queue ≡ (k + 19 - i) / 20

  dispatch-Shared :
      (k : ℕ) (p : Pool A) (x : A) (written : Bool)
      → Shared k p
      → Shared (suc k) (dispatch rt_pool_num p x written)
  unfolding dispatch push notify
  dispatch-Shared k p x written s = record {
    turn_is =
        ap (next_thread rt_pool_num)
          (notify-last (push rt_pool_num p x) (next_thread rt_pool_num p.last_thread) written)
        ∙ next_turn rt_pool_num k p.last_thread s.turn_is;
    lengths = λ i lt. ground (
      arith,
      s.turn_is,
      s.lengths i lt,
      share k i lt,
      length-append (p.threads i).queue (x ∷ []),
    );
  }

  dispatch_all-Shared :
      (k : ℕ) (p : Pool A) (xs : List (A × Bool))
      → Shared k p
      → Shared (k + length xs) (dispatch_all rt_pool_num p xs)
  unfolding dispatch_all
  dispatch_all-Shared k p [] s = let e : k + 0 ≡ k = omega arith in rw e s
  dispatch_all-Shared k p ((x, written) ∷ xs) s =
      let e : k + suc (length xs) ≡ suc k + length xs = omega arith in
      rw e (dispatch_all-Shared (suc k) _ xs (dispatch-Shared k p x written s))

  start-Shared : Shared 0 empty
  unfolding next_thread ◌+ℤ◌
  start-Shared = record { turn_is = refl; lengths = λ i lt. omega arith }

  -- Dispatching in turn shares the connections out evenly: after `k` of them from the start, thread
  -- `i` of the 20 has got `(k + 19 - i) / 20`, so that no two threads differ by more than one.
  pub dispatch-even :
      (xs : List (A × Bool)) (i : ℕ)
      → i < 20
      → length ((dispatch_all rt_pool_num empty xs).threads i).queue ≡ (length xs + 19 - i) / 20
  dispatch-even xs i lt =
      let e : 0 + length xs ≡ length xs = omega arith in
      rw e at ((dispatch_all-Shared 0 empty xs start-Shared).lengths i lt)
