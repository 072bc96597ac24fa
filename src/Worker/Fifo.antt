-- ===== src/Worker/Fifo.antt =====
-- A queue of src/thread.c is first in, first out.
use tdm.Base.{◌≡◌, ◌≢◌, refl, true, false, some, List, [], ◌∷◌, ◌++◌, arith, ◌==◌}
use tdm.Chain.{Ptr, null, node, write, set_next, has, Queue, Holds}
use tdm.Chain.Queues.{
  head-ne-null, tail-ne-null, put_empty, put_behind, head_node, take_last, take_first,
}
use tdm.Worker.Items.{Item, cq_push, cq_pop}

cut_item :
    (q : Queue Item) (item r : Ptr) (v : Item)
    → q.heap item ≡ some (node v r)
    → set_next q.heap item null ≡ write q.heap item (some (node v null))
unfolding set_next
cut_item q item r v e = rw (e, set_next)

-- `cq_push` puts an item that is in no queue yet behind the others.
pub push-Holds :
    (q : Queue Item) (xs : List (Ptr × Item)) (item r : Ptr) (v : Item)
    → Holds q xs
    → q.heap item ≡ some (node v r)
    → item ≢ null
    → has item xs ≡ false
    → Holds (cq_push q item) (xs ++ (item, v) ∷ [])
unfolding cq_push
push-Holds q [] item r v h e ne out =
    let none_yet : (q.tail == null) ≡ true = ground (arith, h.ends) in
    rw (none_yet, cut_item q item r v e) (put_empty q.heap item v ne)
push-Holds q (x ∷ xs) item r v h e ne out =
    let more : (q.tail == null) ≡ false = ground (arith, tail-ne-null q x xs h) in
    rw (more, cut_item q item r v e) (put_behind q x xs item v h out ne)

-- `cq_pop` takes the first item off, leaves the others in order, and writes to no item.
pub pop-Holds :
    (q : Queue Item) (p : Ptr) (v : Item) (xs : List (Ptr × Item))
    → Holds q ((p, v) ∷ xs)
    → ((cq_pop q).0 ≡ p) × Holds (cq_pop q).1 xs × ((cq_pop q).1.heap ≡ q.heap)
unfolding cq_pop
pop-Holds q p v [] h =
    let some_left : (q.head == null) ≡ false = ground (arith, head-ne-null q (p, v) [] h) in
    rw (some_left, head_node q p v [] h) (h.starts, take_last q (p, v) h, refl)
pop-Holds q p v ((r, w) ∷ xs) h =
    let some_left : (q.head == null) ≡ false =
      ground (arith, head-ne-null q (p, v) ((r, w) ∷ xs) h) in
    let more : (r == null) ≡ false = ground (arith, h.linked.3.0) in
    rw (some_left, head_node q p v ((r, w) ∷ xs) h, more)
      (h.starts, take_first q (p, v) (r, w) xs h, refl)

-- If the queue holds some items, the first of them at `p`, then after `cq_push` of an item that is
-- not among them it holds the same items with this one behind them, and `cq_pop` then gives `p` and
-- leaves the others with this one behind them, writing to no item.
pub push-pop-Holds :
    (q : Queue Item) (p : Ptr) (w : Item) (xs : List (Ptr × Item)) (item r : Ptr) (v : Item)
    → Holds q ((p, w) ∷ xs)
    → q.heap item ≡ some (node v r)
    → item ≢ null
    → has item ((p, w) ∷ xs) ≡ false
    → Holds (cq_push q item) ((p, w) ∷ (xs ++ (item, v) ∷ []))
      × (((cq_pop (cq_push q item)).0 ≡ p)
          × Holds (cq_pop (cq_push q item)).1 (xs ++ (item, v) ∷ [])
          × ((cq_pop (cq_push q item)).1.heap ≡ (cq_push q item).heap))
push-pop-Holds q p w xs item r v h e ne out =
    let pushed = push-Holds q ((p, w) ∷ xs) item r v h e ne out in
    (pushed, pop-Holds (cq_push q item) p w (xs ++ (item, v) ∷ []) pushed)
