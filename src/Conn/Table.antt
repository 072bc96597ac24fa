-- ===== src/Conn/Table.antt =====
-- The table holds each connection in the slot of its own descriptor.
use tdm.Base.{
  ℕ, ◌≡◌, ◌≢◌, refl, sym, ap, ◌∙◌, subst, inl, inr, Bool, true, false, Option, none, some, ◌==◌,
  arith, if◌then◌else◌, Bool-cases,
}
use tdm.Conn.{ConnState, Conn, Table, write_conn, slot, fill, conn_new, conn_free}

-- Each connection of the table is in the slot of its descriptor.
abbrev pub IsIndexed : Table → Type 0
IsIndexed conns = (i : ℕ) (c : Conn) → conns i ≡ some c → c.sfd ≡ i

same : (i j : ℕ) → (i == j) ≡ true → i ≡ j
same i j h = ground arith

write_conn-IsIndexed :
    (conns : Table) (i : ℕ) (o : Option Conn)
    → IsIndexed conns
    → ((c : Conn) → o ≡ some c → c.sfd ≡ i)
    → IsIndexed (write_conn conns i o)
write_conn-IsIndexed conns i o h new j c e = elim (Bool-cases (i == j)) [
  | inl here ↦ let mine : o ≡ some c = rw here at e in new c mine ∙ same i j here
  | inr there ↦ h j c (rw there at e)
]

slot_sfd :
    (conns : Table) (o : Option Conn) (sfd : ℕ) (allocated : Bool) (c : Conn)
    → IsIndexed conns
    → conns sfd ≡ o
    → slot o sfd allocated ≡ some c
    → c.sfd ≡ sfd
slot_sfd conns (some d) sfd a c h e s = h sfd c (e ∙ s)
slot_sfd conns none sfd true c h e s = sym (ap (λ o. elim o [ none ↦ sfd | some d ↦ d.sfd ]) s)
slot_sfd conns none sfd false c h e s = absurd cc

-- What `conn_new` promises of the new table and of what it returns.
abbrev pub IsOpened : Table → ℕ → ConnState → ℕ → ℕ → Table × Option Conn → Type 0
IsOpened conns sfd init_state event_flags base r =
    (IsIndexed r.0 × ((j : ℕ) → j ≢ sfd → r.0 j ≡ conns j))
    × ((c : Conn)
        → r.1 ≡ some c
        → ((r.0 sfd ≡ some c) × ((c.sfd ≡ sfd) × (c.state ≡ init_state)))
          × ((c.base ≡ base) × ((c.ev_flags ≡ event_flags) × (c.added ≡ true))))

elsewhere : (i j : ℕ) → j ≢ i → (i == j) ≡ false
elsewhere i j h = ground arith

here : (i : ℕ) → (i == i) ≡ true
here i = ground arith

returned : (b : Bool) (d c : Conn) → (if b then some d else none) ≡ some c → (d ≡ c) × (b ≡ true)
returned true d c e = (ap (λ o. elim o [ none ↦ d | some x ↦ x ]) e, refl)
returned false d c e = absurd cc

fill-IsOpened :
    (conns : Table) (sfd : ℕ) (o : Option Conn) (init_state : ConnState) (event_flags base now : ℕ)
    (ok : Bool)
    → IsIndexed conns
    → ((c : Conn) → o ≡ some c → c.sfd ≡ sfd)
    → IsOpened conns sfd init_state event_flags base
        (fill conns sfd o init_state event_flags base now ok)
fill-IsOpened conns sfd none init_state event_flags base now ok h at_sfd =
    ((h, λ j ne. refl), λ c e. absurd cc)
fill-IsOpened conns sfd (some c) init_state event_flags base now ok h at_sfd =
    let d : Conn = record {
      sfd = c.sfd;
      state = init_state;
      last_cmd_time = now;
      ev_flags = event_flags;
      which = c.which;
      item = c.item;
      base = base;
      added = ok;
    } in
    (
      (
        write_conn-IsIndexed conns sfd (some d) h
            (λ x e. ap Conn.sfd (sym (unsome d x e)) ∙ at_sfd c refl),
        λ j ne. rw (elsewhere sfd j ne) refl,
      ),
      λ x e.
          let (same_conn, good) = returned ok d x e in
          subst
            (λ y.
              ((write_conn conns sfd (some d) sfd ≡ some y)
                × ((y.sfd ≡ sfd) × (y.state ≡ init_state)))
              × ((y.base ≡ base) × ((y.ev_flags ≡ event_flags) × (y.added ≡ true))))
            same_conn ((rw (here sfd) refl, (at_sfd c refl, refl)), (refl, (refl, good))),
    )
  where
    unsome : (d x : Conn) → some d ≡ some x → d ≡ x
    unsome d x e = ap (λ o. elim o [ none ↦ d | some y ↦ y ]) e

-- From a table that holds each connection in the slot of its descriptor, `conn_new` makes such a
-- table again, whether or not the slot was taken, changes no other slot, and if it returns a
-- connection, that is the one in the slot, with the descriptor, the state, the flags and the event
-- base that were asked for, and with its event added; `conn_free` of a connection of the table
-- leaves such a table, in which its slot is empty.
pub conn_new-IsOpened :
    (conns : Table) (sfd : ℕ) (init_state : ConnState) (event_flags base : ℕ) (allocated : Bool)
    (now : ℕ) (ok : Bool) (old : Conn)
    → IsIndexed conns
    → IsOpened conns sfd init_state event_flags base
        (conn_new conns sfd init_state event_flags base allocated now ok)
      × (IsIndexed (conn_free conns old) × (conn_free conns old old.sfd ≡ none))
unfolding conn_new conn_free
conn_new-IsOpened conns sfd init_state event_flags base allocated now ok old h = (
  fill-IsOpened conns sfd _ init_state event_flags base now ok h
      (λ c e. slot_sfd conns (conns sfd) sfd allocated c h refl e),
  (write_conn-IsIndexed conns old.sfd none h (λ c e. absurd cc), rw (here old.sfd) refl),
)
