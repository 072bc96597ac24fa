-- ===== src/Handlers.antt =====
-- Handlers of src/TDM.c that end the work with a device's session or answer from it:
-- `Coding_With_LogOut`, `Destory_Node` and `Coding_With_VPN_RQST`; `Auth`, `Confirm`
-- and `Device` have the others.
pub mod LogOut
pub mod Confirm
pub mod Auth
pub mod Device
use tdm.Base.{
  ℕ, ◌+◌, ◌%◌, Bool, true, false, Option, none, some, List, [], ◌∷◌, leb, take, length,
  if◌then◌else◌,
}
use tdm.Base.Int.{ℤ, pos, ltb_ℤ}
use tdm.Session.{close_socket_fd}

-- The fields of `Data_Spm` that a log-out writes: `fd1`, `socket_spm` and `outtime`.
pub record Leaving : Type 0 where
  pub fd1 : ℤ
  pub socket_spm : ℤ
  pub outtime : ℕ

abbrev pub without_fd : ℤ → ℤ
without_fd fd = if ltb_ℤ (pos 0) fd then pos 0 else fd

-- The fields afterwards, the sockets closed, and whether a job that logs the log-out is added to the
-- pool.
pub record Left : Type 0 where
  pub session : Leaving
  pub closed : List ℤ
  pub logged : Bool

-- `Coding_With_LogOut` at the time `now`.
unfoldable pub coding_with_log_out : ℕ → Leaving → Left
coding_with_log_out now d =
    if leb now (d.outtime + 25)
    then record { session = record d { fd1 = without_fd d.fd1 }; closed = []; logged = false }
    else record {
      session = record {
        fd1 = without_fd d.fd1;
        socket_spm = (close_socket_fd d.socket_spm).0;
        outtime = now;
      };
      closed = (close_socket_fd d.socket_spm).1;
      logged = true;
    }

-- A sequence of log-outs, at these times: the session afterwards and the times that are logged.
abbrev pub note : Bool → ℕ → List ℕ → List ℕ
note logged now rest = if logged then now ∷ rest else rest

unfoldable pub log_outs : List ℕ → Leaving → Leaving × List ℕ
log_outs [] d = (d, [])
log_outs (now ∷ times) d =
    let l = coding_with_log_out now d in
    let rest = log_outs times l.session in (rest.0, note l.logged now rest.1)

-- `Destory_Node`, with the descriptor of the connection: the session, and the descriptors closed, in
-- order.
unfoldable pub destory_node : Option Leaving → ℤ → Option Leaving × List ℤ
destory_node none fd = (none, fd ∷ [])
destory_node (some d) fd = (
  some (record d { fd1 = pos 0; socket_spm = (close_socket_fd d.socket_spm).0 }),
  if ltb_ℤ (pos 0) d.socket_spm then d.socket_spm ∷ fd ∷ [] else fd ∷ [],
)

-- `Coding_With_VPN_RQST`: the frame, for the name that `GetVPN_From_SimPool` finds, if it finds one.
unfoldable pub coding_with_vpn_rqst : Option (List ℕ) → List ℕ
coding_with_vpn_rqst none = 0xA5 ∷ 0 ∷ 0 ∷ 1 ∷ []
coding_with_vpn_rqst (some vpn) = 0xA5 ∷ length vpn % 256 ∷ 0 ∷ 0 ∷ take (length vpn % 256) vpn
