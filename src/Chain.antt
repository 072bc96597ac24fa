-- ===== src/Chain.antt =====
-- Singly linked nodes at addresses, as `struct job` of inc/threadpool.h and `CQ_ITEM` of
-- inc/common.h are: a node has a content and a `next` pointer. `Queue` is the pair of a head and
-- a tail pointer that src/threadpool.c and src/thread.c keep over such nodes.
pub mod Queues
use tdm.Base.{
  ℕ, ◌≡◌, ◌≢◌, refl, ap, ◌∙◌, Bool, false, true, ◌||◌, Option, none, some, List, [], ◌∷◌, ◌++◌,
  arith, ◌==◌, if◌then◌else◌,
}

abbrev pub Ptr : Type 0
Ptr = ℕ

abbrev pub null : Ptr
null = 0

module _ {A : Type 0} where
  abbrev pub has : Ptr → List (Ptr × A) → Bool
  has a [] = false
  has a ((p, _) ∷ xs) = (a == p) || has a xs

  -- The address of the first node of a list, the null pointer of an empty one.
  abbrev pub first : List (Ptr × A) → Ptr
  first [] = null
  first ((p, _) ∷ xs) = p

  abbrev pub last : Ptr → List (Ptr × A) → Ptr
  last d [] = d
  last d ((p, _) ∷ xs) = last p xs

  abbrev pub contents : List (Ptr × A) → List A
  contents [] = []
  contents ((_, v) ∷ xs) = v ∷ contents xs

pub record Node (A : Type 0) : Type 0 where
  pub content : A
  pub next : Ptr

module _ {A : Type 0} where
  abbrev pub node : A → Ptr → Node A
  node v q = record { content = v; next = q }

abbrev pub Heap : Type 0 → Type 0
Heap A = Ptr → Option (Node A)

module _ {A : Type 0} where
  unfoldable pub write : Heap A → Ptr → Option (Node A) → Heap A
  write h p c a = if a == p then c else h a

  -- `p->next = q`; a pointer that leads to no node leaves the memory alone.
  unfoldable pub set_next : Heap A → Ptr → Ptr → Heap A
  unfolding write
  set_next h p q = elim (h p) [ none ↦ h | some n ↦ write h p (some (record n { next = q })) ]

  -- From its first node the list `xs` is linked by `next` down to the null pointer, each node at
  -- an address of its own.
  abbrev pub Linked : Heap A → List (Ptr × A) → Type 0
  Linked h [] = Unit {0}
  Linked h ((p, v) ∷ xs) =
      (p ≢ null) × (h p ≡ some (node v (first xs))) × (has p xs ≡ false) × Linked h xs

  pub frame :
      (h : Heap A) (xs : List (Ptr × A)) (a : Ptr) (c : Option (Node A))
      → has a xs ≡ false
      → Linked h xs
      → Linked (write h a c) xs
  unfolding write
  frame h [] a c out l = tt
  frame h ((p, v) ∷ xs) a c out l = (l.0, ground arith, l.2, frame h xs a c (ground arith) l.3)

  pub has-append : (a : Ptr) (xs ys : List (Ptr × A)) → has a (xs ++ ys) ≡ (has a xs || has a ys)
  has-append a [] ys = refl
  has-append a ((p, _) ∷ xs) ys = ground (arith, has-append a xs ys)

  pub contents-append : (xs ys : List (Ptr × A)) → contents (xs ++ ys) ≡ contents xs ++ contents ys
  contents-append [] ys = refl
  contents-append ((_, v) ∷ xs) ys = ap (λ r. v ∷ r) (contents-append xs ys)

  pub last-append :
      (d : Ptr) (xs : List (Ptr × A)) (n : Ptr) (v : A) → last d (xs ++ (n, v) ∷ []) ≡ n
  last-append d [] n v = refl
  last-append d ((p, _) ∷ xs) n v = last-append p xs n v

  -- The null pointer is the address of no node.
  pub has-null : (h : Heap A) (xs : List (Ptr × A)) → Linked h xs → has null xs ≡ false
  has-null h [] l = refl
  has-null h ((p, v) ∷ xs) l = ground (arith, has-null h xs l.3)

  pub has-last : (q : Ptr) (u : A) (xs : List (Ptr × A)) → has (last q xs) ((q, u) ∷ xs) ≡ true
  has-last q u [] = ground arith
  has-last q u ((r, v) ∷ xs) = ground (arith, has-last r v xs)

  pub set_next_ne : (h : Heap A) (p q a : Ptr) → a ≢ p → set_next h p q a ≡ h a
  unfolding set_next
  set_next_ne h p q a ne = ground arith

  linked_pair :
      (h : Heap A) (p : Ptr) (w : A) (n : Ptr) (v : A)
      → p ≢ null
      → h p ≡ some (node w null)
      → (n == p) ≡ false
      → n ≢ null
      → Linked (set_next (write h n (some (node v null))) p n) ((p, w) ∷ (n, v) ∷ [])
  unfolding set_next
  linked_pair h p w n v np e out ne = (np, ground arith, ground arith, (ne, ground arith, refl, tt))

  old_node :
      (h : Heap A) (p : Ptr) (m : Option (Node A)) (c : Option (Node A)) (n t : Ptr)
      → p ≢ n
      → p ≢ t
      → h p ≡ m
      → set_next (write h n c) t n p ≡ m
  unfolding write
  old_node h p m c n t pn pt e = set_next_ne (write h n c) t n p pt ∙ ground arith

  -- A new node that the last node is made to point at extends the list.
  pub Linked-snoc :
      (h : Heap A) (p : Ptr) (w : A) (xs : List (Ptr × A)) (n : Ptr) (v : A)
      → Linked h ((p, w) ∷ xs)
      → has n ((p, w) ∷ xs) ≡ false
      → n ≢ null
      → Linked
          (set_next (write h n (some (node v null))) (last p xs) n)
          ((p, w) ∷ xs ++ (n, v) ∷ [])
  Linked-snoc h p w [] n v l out ne = linked_pair h p w n v l.0 l.1 (ground arith) ne
  Linked-snoc h p w ((q, u) ∷ xs) n v l out ne = (
    l.0,
    old_node h p (some (node w q)) (some (node v null)) n (last q xs) (ground arith) apart l.1,
    ground (arith, has-append p xs ((n, v) ∷ [])),
    Linked-snoc h q u xs n v l.3 (ground arith) ne,
  )
    where
      apart : p ≢ last q xs
      apart e = ground (arith, has-last q u xs)

-- The head and the tail pointer over the nodes.
pub record Queue (A : Type 0) : Type 0 where
  pub heap : Heap A
  pub head : Ptr
  pub tail : Ptr

-- The queue holds the nodes `xs`, in this order.
pub record Holds {A : Type 0} (q : Queue A) (xs : List (Ptr × A)) : Type 0 where
  pub linked : Linked q.heap xs
  pub starts : q.head ≡ first xs
  pub ends : q.tail ≡ last null xs
