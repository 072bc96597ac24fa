-- ===== src/Worker/Items.antt =====
-- `struct conn_queue_item` and the operations on queues and free lists of such items.
--
-- Each operation runs under a mutex. In `cqi_new_base` the lock is given up while the new block of
-- items is linked; the block is not shared then, so the two sections are one step.
use tdm.Base.{ℕ, zero, suc, ◌+◌, ◌-◌, Option, none, some, List, ◌==◌, if◌then◌else◌, replicate}
use tdm.Chain.{Ptr, null, Node, node, Heap, write, set_next, Queue}

-- `ITEMS_PER_ALLOC` and `DATA_BUFFER_SIZE`
abbrev pub items_per_alloc : ℕ
items_per_alloc = 128

abbrev pub data_buffer_size : ℕ
data_buffer_size = 1024

-- An item without its `next`: socket, state of the connection to make, events, mode, text.
pub record Item : Type 0 where
  pub sfd : ℕ
  pub init_state : ℕ
  pub event_flags : ℕ
  pub mode : ℕ
  pub buff : List ℕ

-- An item after `memset(item, 0, sizeof(CQ_ITEM))`.
unfoldable pub blank : Item
blank = record {
  sfd = 0;
  init_state = 0;
  event_flags = 0;
  mode = 0;
  buff = replicate data_buffer_size 0;
}

abbrev pub cq_init : Heap Item → Queue Item
cq_init h = record { heap = h; head = null; tail = null }

unfoldable pub cq_push : Queue Item → Ptr → Queue Item
cq_push q item =
    let cut : Heap Item = set_next q.heap item null in
    if q.tail == null
    then record { heap = cut; head = item; tail = item }
    else record { heap = set_next cut q.tail item; head = q.head; tail = item }

-- Past the test for null. A head that leads to no item is a fault, and leaves the queue as it was.
unlink_head : Queue Item → Option (Node Item) → Ptr × Queue Item
unlink_head q none = (null, q)
unlink_head q (some n) =
    (q.head, record q { head = n.next; tail = if n.next == null then null else q.tail })

-- The item, null when there is none, and the queue that is left.
unfoldable pub cq_pop : Queue Item → Ptr × Queue Item
unfolding unlink_head
cq_pop q = if q.head == null then (null, q) else unlink_head q (q.heap q.head)

-- The items and the head of a free list.
pub record Free : Type 0 where
  pub heap : Heap Item
  pub list : Ptr

unfoldable pub cqi_free_base : Free → Ptr → Free
cqi_free_base f item = record { heap = set_next f.heap item f.list; list = item }

-- What the memory that `malloc` gives happens to hold at each address.
abbrev pub Memory : Type 0
Memory = Ptr → Node Item

-- `malloc` of a block: the items at `base`, `base + 1`, …, with the bytes that the memory held.
unfoldable pub malloc_block : ℕ → Ptr → Memory → Heap Item → Heap Item
malloc_block zero base memory h = h
malloc_block (suc k) base memory h =
    malloc_block k (base + 1) memory (write h base (some (memory base)))

-- `for (i = 2; i < n; i++) item[i - 1].next = &item[i];`, from the address of `item[i - 1]`.
unfoldable pub link_block : ℕ → Ptr → Heap Item → Heap Item
link_block zero p h = h
link_block (suc k) p h = link_block k (p + 1) (set_next h p (p + 1))

unfoldable pub clear_item : Heap Item → Ptr → Heap Item
clear_item h p = write h p (some (node blank null))

-- A new block at `base`: its first item is handed out, the others come in front of the list.
unfoldable pub new_block : Free → Ptr → Memory → Ptr × Free
new_block f base memory = (
  base,
  record {
    heap =
        clear_item
          (set_next
            (link_block (items_per_alloc - 2) (base + 1)
              (malloc_block items_per_alloc base memory f.heap))
            (base + 127) f.list)
          base;
    list = base + 1;
  },
)

reuse_item : Free → Option (Node Item) → Ptr × Free
unfolding clear_item
reuse_item f none = (null, f)
reuse_item f (some n) = (f.list, record { heap = clear_item f.heap f.list; list = n.next })

-- The first free item, or one of a new block. At a null `base` the allocation has failed.
unfoldable pub cqi_new_base : Free → Ptr → Memory → Ptr × Free
unfolding reuse_item new_block
cqi_new_base f base memory =
    if f.list == null
    then (if base == null then (null, f) else new_block f base memory)
    else reuse_item f (f.heap f.list)
