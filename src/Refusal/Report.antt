-- ===== src/Refusal/Report.antt =====
-- What the device reads of an error.
use tdm.Base.{
  ℕ, ◌≤◌, ◌≡◌, refl, ap, inl, inr, true, false, ◌&&◌, [], ◌∷◌, ◌%◌, ◌==◌, leb, if◌then◌else◌,
  length, arith, Bool-cases,
}
use tdm.Base.Int.{pos, eqb_ℤ}
use tdm.Frames.{bytes_of}
use tdm.Refusal.{Allocation, ip_change, sock_err, sim_allocate_err, pack_refusal}

-- After `SIM_Allocate_Err` of one of the codes 1 to 8 on an allocation without the factory flag, the
-- code is returned, and the frame that `AccessAuth_Result_Pack` gives the device has the failure mark
-- and the code; but `SockErr` is reported as `IpChange`, with the address of the server behind it. The
-- offset returned is the length of the frame, though its length field always says 1.
pub pack_refusal-sim_allocate_err :
    (code : ℕ) (a : Allocation)
    → (1 ≤ code) × (code ≤ 8)
    → a.factory_flag ≡ pos 0
    → let b = (sim_allocate_err code a).0 in
      ((sim_allocate_err code a).1 ≡ pos code)
      × ((bytes_of (pack_refusal b).0
            ≡ 0x91
              ∷ 1
              ∷ 0
              ∷ 0x32
              ∷ (if code == sock_err then ip_change else code)
              ∷ (if code == sock_err then a.server_info else []))
          × ((pack_refusal b).1 ≡ length (bytes_of (pack_refusal b).0)))
unfolding sim_allocate_err pack_refusal
pack_refusal-sim_allocate_err code a h flag = elim (Bool-cases (code == sock_err)) [
  | inl e ↦ rw e (ap pos (ground arith), (refl, omega arith))
  | inr e ↦
      let known : (leb 1 code && leb code 7) ≡ true = ground arith in
      let other : eqb_ℤ (pos code) (pos sock_err) ≡ false = ground arith in
      let small : code % 256 ≡ code = omega arith in
      rw (e, known, flag, other, small) (refl, (refl, omega arith))
]
