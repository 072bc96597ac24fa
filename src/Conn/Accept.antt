-- ===== src/Conn/Accept.antt =====
-- What an event on a connection leads to.
use tdm.Base.{
  ℕ, ◌≡◌, ◌≢◌, refl, ap, ◌∙◌, ◌⊎◌, inl, inr, true, false, List, [], ◌∷◌, ◌++◌, ◌==◌, arith,
  Bool-cases,
}
use tdm.Session.{text_in}
use tdm.Conn.{
  ConnState, Conn, conn_listening, conn_new_cmd, conn_waiting, conn_read, conn_parse_cmd,
  conn_write, conn_nread, conn_swallow, conn_closing, conn_mwrite, conn_closed, Effect, closes,
  dispatches, reads, hands, Read, socket_read_cb, Accepted, fails, accepts, accept_loop, do_accept,
  with_which, conn_close, conn_set_state, event_handler,
}

-- A call of `accept` that yields no connection, and the descriptor that is closed for it.
abbrev pub AllRefused : List Accepted → Type 0
AllRefused [] = Unit {0}
AllRefused (fails ∷ calls) = AllRefused calls
AllRefused (accepts sfd true ∷ calls) = ⊥
AllRefused (accepts sfd false ∷ calls) = AllRefused calls

abbrev pub closed_for : List Accepted → List Effect
closed_for [] = []
closed_for (fails ∷ calls) = closed_for calls
closed_for (accepts sfd b ∷ calls) = closes sfd ∷ closed_for calls

accept_loop-refused :
    (calls : List Accepted) → AllRefused calls → accept_loop calls ≡ (closed_for calls, false)
unfolding accept_loop
accept_loop-refused [] h = refl
accept_loop-refused (fails ∷ calls) h = accept_loop-refused calls h
accept_loop-refused (accepts sfd true ∷ calls) h = absurd h
accept_loop-refused (accepts sfd false ∷ calls) h =
    ap (λ r. (closes sfd ∷ r.0, r.1)) (accept_loop-refused calls h)

accept_loop-first :
    (calls rest : List Accepted) (sfd : ℕ)
    → AllRefused calls
    → accept_loop (calls ++ accepts sfd true ∷ rest)
      ≡ (closed_for calls ++ dispatches sfd ∷ [], true)
unfolding accept_loop
accept_loop-first [] rest sfd h = refl
accept_loop-first (fails ∷ calls) rest sfd h = accept_loop-first calls rest sfd h
accept_loop-first (accepts s true ∷ calls) rest sfd h = absurd h
accept_loop-first (accepts s false ∷ calls) rest sfd h =
    ap (λ r. (closes s ∷ r.0, r.1)) (accept_loop-first calls rest sfd h)

other_state :
    (s : ConnState) (c : Conn) (calls : List Accepted) (got : Read)
    → s ≢ conn_listening
    → c.state ≡ s
    → ((do_accept c calls got).1 ≡ true)
      × (((s ≢ conn_new_cmd) × ((do_accept c calls got).0 ≡ []))
          ⊎ ((s ≡ conn_new_cmd)
              × ((do_accept c calls got).0 ≡ reads c.sfd ∷ hands (text_in got.temp) ∷ [])))
unfolding do_accept socket_read_cb
other_state conn_listening c calls got ne e = absurd (ne refl)
other_state conn_new_cmd c calls got ne e = rw e (refl, inr (refl, refl))
other_state conn_waiting c calls got ne e = rw e (refl, inl (λ x. absurd cc, refl))
other_state conn_read c calls got ne e = rw e (refl, inl (λ x. absurd cc, refl))
other_state conn_parse_cmd c calls got ne e = rw e (refl, inl (λ x. absurd cc, refl))
other_state conn_write c calls got ne e = rw e (refl, inl (λ x. absurd cc, refl))
other_state conn_nread c calls got ne e = rw e (refl, inl (λ x. absurd cc, refl))
other_state conn_swallow c calls got ne e = rw e (refl, inl (λ x. absurd cc, refl))
other_state conn_closing c calls got ne e = rw e (refl, inl (λ x. absurd cc, refl))
other_state conn_mwrite c calls got ne e = rw e (refl, inl (λ x. absurd cc, refl))
other_state conn_closed c calls got ne e = rw e (refl, inl (λ x. absurd cc, refl))

on_listening :
    (which : ℕ) (c : Conn) (calls : List Accepted) (got : Read)
    → c.state ≡ conn_listening
    → event_handler c.sfd which c calls got ≡ (with_which c which, accept_loop calls)
unfolding event_handler do_accept
on_listening which c calls got h =
    let own : (c.sfd == c.sfd) ≡ true = ground arith in rw (own, h) refl

-- An event on the listening connection: the descriptors that `setnonblocking` fails on are closed, in
-- order, the first that it succeeds on is dispatched, and no other call of `accept` is made; the
-- handler has not returned as long as every call has failed or given such a descriptor. The
-- connection stays as it was but for `which`.
pub event_handler-accept :
    (which : ℕ) (c : Conn) (refused rest : List Accepted) (sfd : ℕ) (got : Read)
    → c.state ≡ conn_listening
    → AllRefused refused
    → (event_handler c.sfd which c (refused ++ accepts sfd true ∷ rest) got
        ≡ (with_which c which, (closed_for refused ++ dispatches sfd ∷ [], true)))
      × (event_handler c.sfd which c refused got
          ≡ (with_which c which, (closed_for refused, false)))
event_handler-accept which c refused rest sfd got h all = (
  on_listening which c (refused ++ accepts sfd true ∷ rest) got h
      ∙ ap (λ r. (with_which c which, r)) (accept_loop-first refused rest sfd all),
  on_listening which c refused got h
      ∙ ap (λ r. (with_which c which, r)) (accept_loop-refused refused all),
)

-- An event on a connection that is not the listening one returns. If the descriptor is not the
-- connection's, the connection's event is deleted, its state is closed and its descriptor is closed;
-- if it is, the state and the event stay as they were and the descriptor is not closed, whatever
-- `Coding_With_Recv_Data` returns, -1 included: for a connection that waits for a new command, it is read
-- from and the text that was read is handed over, and for another nothing is done.
pub event_handler-close :
    (fd which : ℕ) (c : Conn) (calls : List Accepted) (got : Read)
    → c.state ≢ conn_listening
    → let r = event_handler fd which c calls got in
      (r.1.1 ≡ true)
      × (((fd ≢ c.sfd)
            × (((r.0.state ≡ conn_closed) × (r.0.added ≡ false)) × (r.1.0 ≡ closes c.sfd ∷ [])))
          ⊎ ((fd ≡ c.sfd)
              × (((r.0.state ≡ c.state) × (r.0.added ≡ c.added))
                  × (((c.state ≢ conn_new_cmd) × (r.1.0 ≡ []))
                      ⊎ ((c.state ≡ conn_new_cmd)
                          × (r.1.0 ≡ reads c.sfd ∷ hands (text_in got.temp) ∷ []))))))
unfolding event_handler conn_close conn_set_state
event_handler-close fd which c calls got ne = elim (Bool-cases (fd == c.sfd)) [
  | inl own ↦
      let (ended, effect) = other_state c.state (with_which c which) calls got ne refl in
      rw own (ended, inr (ground arith, ((refl, refl), effect)))
  | inr other ↦ rw other (refl, inl (ground arith, ((refl, refl), refl)))
]
