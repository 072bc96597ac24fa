-- ===== src/Worker/FreeList.antt =====
-- The lists of free items of src/thread.c: what `cqi_new_base` hands out is on no list.
use tdm.Base.{
  ℕ, zero, suc, ◌+◌, ◌≤◌, ◌<◌, ◌≡◌, ap, ◌≢◌, refl, ◌∙◌, ◌⊎◌, inl, inr, true, false, some, List, [],
  ◌∷◌, arith, ◌==◌, Bool-cases,
}
use tdm.Chain.{Ptr, null, Node, node, Heap, write, set_next, Linked, has, first, frame}
use tdm.Worker.Items.{
  items_per_alloc, Item, blank, Free, cqi_free_base, malloc_block, link_block, clear_item,
  cqi_new_base, Memory,
}

-- The free items are `xs`, in this order.
pub record IsFree (f : Free) (xs : List (Ptr × Item)) : Type 0 where
  pub linked : Linked f.heap xs
  pub starts : f.list ≡ first xs

-- The items at `p`, `p + 1`, …, with the bytes that the memory held.
abbrev pub block : Memory → ℕ → Ptr → List (Ptr × Item)
block memory zero p = []
block memory (suc k) p = (p, (memory p).content) ∷ block memory k (p + 1)

malloc_block-out :
    (memory : Memory) (k : ℕ) (base : Ptr) (h : Heap Item) (a : Ptr)
    → (a < base) ⊎ (base + k ≤ a)
    → malloc_block k base memory h a ≡ h a
unfolding malloc_block write
malloc_block-out memory zero base h a out = refl
malloc_block-out memory (suc k) base h a out =
    malloc_block-out memory k (base + 1) _ a (omega arith) ∙ ground arith

malloc_block-at :
    (memory : Memory) (k : ℕ) (base : Ptr) (h : Heap Item) (a : Ptr)
    → base ≤ a
    → a < base + k
    → malloc_block k base memory h a ≡ some (memory a)
unfolding malloc_block write
malloc_block-at memory zero base h a lo hi = absurd (omega arith)
malloc_block-at memory (suc k) base h a lo hi = elim (Bool-cases (a == base)) [
  | inl here ↦
      let at : a ≡ base = ground arith in
      malloc_block-out memory k (base + 1) _ a (inl (ground arith))
      ∙ rw here (ap (λ x. some (memory x)) (omega arith))
  | inr on ↦ malloc_block-at memory k (base + 1) _ a (ground arith) (omega arith)
]

link_block-out :
    (k : ℕ) (p : Ptr) (h : Heap Item) (a : Ptr) → (a < p) ⊎ (p + k ≤ a) → link_block k p h a ≡ h a
unfolding link_block set_next write
link_block-out zero p h a out = refl
link_block-out (suc k) p h a out = link_block-out k (p + 1) _ a (omega arith) ∙ ground arith

link_block-at :
    (k : ℕ) (p : Ptr) (h : Heap Item) (a : Ptr) (n : Node Item)
    → p ≤ a
    → a < p + k
    → h a ≡ some n
    → link_block k p h a ≡ some (node n.content (a + 1))
unfolding link_block set_next write
link_block-at zero p h a n lo hi e = absurd (omega arith)
link_block-at (suc k) p h a n lo hi e = elim (Bool-cases (a == p)) [
  | inl here ↦ link_block-out k (p + 1) _ a (inl (ground arith)) ∙ ground arith
  | inr on ↦ link_block-at k (p + 1) _ a n (ground arith) (omega arith) (ground arith)
]

not-has-block :
    (memory : Memory) (k : ℕ) (p a : Ptr) → (a < p) ⊎ (p + k ≤ a) → has a (block memory k p) ≡ false
not-has-block memory zero p a out = refl
not-has-block memory (suc k) p a out =
    ground (arith, not-has-block memory k (p + 1) a (omega arith))

block-Linked :
    (memory : Memory) (h : Heap Item) (k : ℕ) (p : Ptr)
    → p ≢ null
    → ((a : Ptr) → p ≤ a → a < p + k → h a ≡ some (node (memory a).content (a + 1)))
    → h (p + k) ≡ some (node (memory (p + k)).content null)
    → Linked h (block memory (suc k) p)
block-Linked memory h zero p ne mid end =
    let at : p + 0 ≡ p = omega arith in (ne, rw at at end, refl, tt)
block-Linked memory h (suc k) p ne mid end = (
  ne,
  mid p (omega arith) (omega arith),
  not-has-block memory (suc k) (p + 1) p (omega arith),
  block-Linked memory h k (p + 1) (omega arith) (λ a lo hi. mid a (omega arith) (omega arith))
      (let at : p + 1 + k ≡ p + suc k = omega arith in rw at end),
)

-- The two writes that follow the loop.
ends : Heap Item → Ptr → Ptr → Heap Item
unfolding clear_item
ends h base list = clear_item (set_next h (base + 127) list) base

ends-out :
    (h : Heap Item) (base list a : Ptr) → a ≢ base → a ≢ base + 127 → ends h base list a ≡ h a
unfolding ends set_next write
ends-out h base list a nb ne = ground arith

ends-last :
    (h : Heap Item) (base list : Ptr) (n : Node Item)
    → h (base + 127) ≡ some n
    → ends h base list (base + 127) ≡ some (node n.content list)
unfolding ends set_next write
ends-last h base list n e = ground arith

ends-first : (h : Heap Item) (base list : Ptr) → ends h base list base ≡ some (node blank null)
unfolding ends write
ends-first h base list = ground arith

module _ (memory : Memory) (h : Heap Item) (base list : Ptr) where
  abbrev fresh : Heap Item
  fresh = malloc_block 128 base memory h

  abbrev linked : Heap Item
  linked = link_block 126 (base + 1) fresh

  block_heap-out : (a : Ptr) → (a < base) ⊎ (base + 128 ≤ a) → ends linked base list a ≡ h a
  block_heap-out a out =
      ends-out linked base list a (omega arith) (omega arith)
      ∙ link_block-out 126 (base + 1) fresh a (omega arith)
      ∙ malloc_block-out memory 128 base h a out

  block_heap-mid :
      (a : Ptr)
      → base + 1 ≤ a
      → a < base + 1 + 126
      → ends linked base list a ≡ some (node (memory a).content (a + 1))
  block_heap-mid a lo hi =
      ends-out linked base list a (omega arith) (omega arith)
      ∙ link_block-at 126 (base + 1) fresh a (memory a) lo hi
          (malloc_block-at memory 128 base h a (omega arith) (omega arith))

  block_heap-end :
      ends linked base list (base + 127) ≡ some (node (memory (base + 127)).content list)
  block_heap-end = ends-last linked base list (memory (base + 127)) (
      link_block-out 126 (base + 1) fresh (base + 127) (omega arith)
      ∙ malloc_block-at memory 128 base h (base + 127) (omega arith) (omega arith))

-- When the list is empty and `malloc` gives a block at `base`, the caller gets the item at `base`
-- with all its bytes zero whatever the memory held, the list holds the 127 others in order of address,
-- with the bytes that the memory held, and not that one, and no memory outside the block is written.
pub new-block :
    (f : Free) (base : Ptr) (memory : Memory)
    → IsFree f []
    → base ≢ null
    → let (item, g) = cqi_new_base f base memory in
      (item ≡ base)
      × (g.heap item ≡ some (node blank null))
      × IsFree g (block memory 127 (base + 1))
      × (has item (block memory 127 (base + 1)) ≡ false)
      × ((a : Ptr) → (a < base) ⊎ (base + items_per_alloc ≤ a) → g.heap a ≡ f.heap a)
unfolding cqi_new_base ends
new-block f base memory v ne =
    let list_null : (f.list == null) ≡ true = ground (arith, v.starts) in
    let got : (base == null) ≡ false = ground arith in
    let at : base + 1 + 126 ≡ base + 127 = omega arith in
    rw (list_null, got)
      (
        refl,
        ends-first (linked memory f.heap base f.list) base f.list,
        record {
          linked =
              block-Linked memory _ 126 (base + 1) (omega arith)
                (block_heap-mid memory f.heap base f.list)
                (rw (at, block_heap-end memory f.heap base f.list, v.starts));
          starts = refl;
        },
        not-has-block memory 127 (base + 1) base (omega arith),
        block_heap-out memory f.heap base f.list,
      )

-- An item that is given back while on no list becomes the first of the list.
pub free-IsFree :
    (f : Free) (xs : List (Ptr × Item)) (item r : Ptr) (v : Item)
    → IsFree f xs
    → f.heap item ≡ some (node v r)
    → item ≢ null
    → has item xs ≡ false
    → IsFree (cqi_free_base f item) ((item, v) ∷ xs)
unfolding cqi_free_base set_next
free-IsFree f xs item r v free e ne out =
    rw (e, set_next)
      (record {
        linked = (ne, written, out, frame f.heap xs item (some (node v f.list)) out free.linked);
        starts = refl;
      })
  where
    written : write f.heap item (some (node v f.list)) item ≡ some (node v (first xs))
    written = unfold write in ground (arith, free.starts)

-- When the list is not empty, the caller gets its first item with all its bytes zero, whatever
-- `malloc` would give; the list keeps the others in order, and does not hold that item.
pub new-reuse :
    (f : Free) (base p : Ptr) (memory : Memory) (v : Item) (xs : List (Ptr × Item))
    → IsFree f ((p, v) ∷ xs)
    → let (item, g) = cqi_new_base f base memory in
      (item ≡ p) × (g.heap p ≡ some (node blank null)) × IsFree g xs × (has p xs ≡ false)
unfolding cqi_new_base clear_item
new-reuse f base p memory v xs free =
    let some_left : (f.list == null) ≡ false = ground (arith, free.starts, free.linked.0) in
    let at_head : f.heap f.list ≡ some (node v (first xs)) = rw free.starts free.linked.1 in
    rw (some_left, at_head)
      (
        free.starts,
        (unfold write in ground (arith, free.starts)),
        record {
          linked =
              frame f.heap xs f.list (some (node blank null)) (rw free.starts free.linked.2)
                free.linked.3;
          starts = refl;
        },
        free.linked.2,
      )
