-- ===== src/Chain/Queues.antt =====
-- The two writes at the end of a queue and the one at its head, for either way of telling whether
-- it is empty: src/threadpool.c looks at `head`, src/thread.c at `tail`.
use tdm.Base.{
  length, ◌≡◌, ◌≢◌, refl, sym, subst, ap, ◌∙◌, false, none, some, List, [], ◌∷◌, ◌++◌, arith,
}
use tdm.Chain.{
  Ptr, null, node, Heap, write, set_next, Linked, first, last, has, Linked-snoc, last-append,
  has-last, set_next_ne, Queue, Holds,
}

module _ {A : Type 0} where
  -- Memory that holds no node is no part of a list.
  pub not-has_of_none :
      (h : Heap A) (xs : List (Ptr × A)) (a : Ptr) → Linked h xs → h a ≡ none → has a xs ≡ false
  not-has_of_none h [] a l e = refl
  not-has_of_none h ((p, v) ∷ xs) a l e = ground (arith, not-has_of_none h xs a l.3 e)

  pub head-ne-null :
      (q : Queue A) (x : Ptr × A) (xs : List (Ptr × A)) → Holds q (x ∷ xs) → q.head ≢ null
  head-ne-null q (p, v) xs h e = h.linked.0 (ground (arith, h.starts))

  last_has :
      (p : Ptr) (v : A) (xs : List (Ptr × A)) (h : Heap A)
      → Linked h ((p, v) ∷ xs)
      → last p xs ≢ null
  last_has p v [] h l = l.0
  last_has p v ((q, u) ∷ xs) h l = last_has q u xs h l.3

  pub tail-ne-null :
      (q : Queue A) (x : Ptr × A) (xs : List (Ptr × A)) → Holds q (x ∷ xs) → q.tail ≢ null
  tail-ne-null q (p, v) xs h e = last_has p v xs q.heap h.linked (ground (arith, h.ends))

  pub put_empty :
      (h : Heap A) (n : Ptr) (v : A)
      → n ≢ null
      → Holds (record { heap = write h n (some (node v null)); head = n; tail = n }) ((n, v) ∷ [])
  unfolding write
  put_empty h n v ne = record { linked = (ne, ground arith, refl, tt); starts = refl; ends = refl }

  pub put_behind :
      (q : Queue A) (x : Ptr × A) (xs : List (Ptr × A)) (n : Ptr) (v : A)
      → Holds q (x ∷ xs)
      → has n (x ∷ xs) ≡ false
      → n ≢ null
      → Holds
          (record {
            heap = set_next (write q.heap n (some (node v null))) q.tail n;
            head = q.head;
            tail = n;
          })
          (x ∷ xs ++ (n, v) ∷ [])
  put_behind q (p, w) xs n v h out ne = record {
    linked =
        subst
          (λ t.
            Linked (set_next (write q.heap n (some (node v null))) t n)
              ((p, w) ∷ xs ++ (n, v) ∷ []))
          (sym h.ends) (Linked-snoc q.heap p w xs n v h.linked out ne);
    starts = h.starts;
    ends = ground (arith, last-append p xs n v);
  }

  -- What stands at the head.
  pub head_node :
      (q : Queue A) (p : Ptr) (v : A) (xs : List (Ptr × A))
      → Holds q ((p, v) ∷ xs)
      → q.heap q.head ≡ some (node v (first xs))
  head_node q p v xs h = rw h.starts h.linked.1

  pub take_last :
      (q : Queue A) (x : Ptr × A)
      → Holds q (x ∷ [])
      → Holds (record q { head = null; tail = null }) []
  take_last q x h = record { linked = tt; starts = refl; ends = refl }

  pub take_first :
      (q : Queue A) (x y : Ptr × A) (xs : List (Ptr × A))
      → Holds q (x ∷ y ∷ xs)
      → Holds (record q { head = first (y ∷ xs) }) (y ∷ xs)
  take_first q (p, v) (r, w) xs h = record { linked = h.linked.3; starts = refl; ends = h.ends }

  pub head_of_empty :
      (q : Queue A) (xs : List (Ptr × A)) → Holds q xs → length xs ≡ 0 → q.head ≡ null
  head_of_empty q [] h e = h.starts
  head_of_empty q (x ∷ xs) h e = absurd (omega arith)

  -- A write at the end changes the new node and the last one only.
  pub put_spares :
      (q : Queue A) (x : Ptr × A) (xs : List (Ptr × A)) (n a : Ptr) (v : A)
      → Holds q (x ∷ xs)
      → a ≢ n
      → has a (x ∷ xs) ≡ false
      → set_next (write q.heap n (some (node v null))) q.tail n a ≡ q.heap a
  unfolding write
  put_spares q (p, w) xs n a v h ne out =
      set_next_ne (write q.heap n (some (node v null))) q.tail n a apart ∙ ground arith
    where
      apart : a ≢ q.tail
      apart e =
          let at_end : a ≡ last p xs = e ∙ h.ends in
          cc (has-last p w xs, out, ap (λ z. has z ((p, w) ∷ xs)) at_end)
