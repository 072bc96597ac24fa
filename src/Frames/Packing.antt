-- ===== src/Frames/Packing.antt =====
-- What a packed frame says of its data.
use tdm.Base.{
  ℕ, zero, suc, ◌-◌, ◌%◌, ◌≤◌, ◌<◌, ◌≡◌, refl, ap, ◌∙◌, inl, inr, some, List, ◌∷◌, ltb, take-all,
  length, arith, Bool-cases,
}
use tdm.Base.Int.{pos}
use tdm.Frames.{SendFrame, bytes_of, reduce, tt_result_pack}

pub reduce_lem : (fuel r : ℕ) → r ≤ fuel → reduce fuel r ≡ r % 256
unfolding reduce
reduce_lem zero r h = omega arith
reduce_lem (suc fuel) r h = elim (Bool-cases (ltb 255 r)) [
  | inl big ↦ rw big (reduce_lem fuel (r - 256) (ground arith) ∙ ground arith)
  | inr small ↦ rw small (ground arith)
]

-- A frame packed by `TT_Result_Pack` from data of `num` bytes, fewer than 256, is as many bytes as
-- the value returned says: the command, the length, a zero, the result modulo 256, then the data,
-- none left out. The loop that reduces the result ends.
pub tt_result_pack-bytes :
    (bs : List ℕ) (dst : SendFrame) (cmd result : ℕ)
    → length bs < 256
    → cmd < 256
    → (bytes_of (tt_result_pack (some bs) dst (length bs) (pos cmd) (pos result)).0
        ≡ cmd ∷ length bs ∷ 0 ∷ result % 256 ∷ bs)
      × ((tt_result_pack (some bs) dst (length bs) (pos cmd) (pos result)).1
          ≡ length (bytes_of (tt_result_pack (some bs) dst (length bs) (pos cmd) (pos result)).0))
unfolding tt_result_pack
tt_result_pack-bytes bs dst cmd result h hc =
    let c : cmd % 256 ≡ cmd = omega arith in
    let n : length bs % 256 ≡ length bs = omega arith in
    let r : reduce result result % 256 ≡ result % 256 =
      ap (λ k. k % 256) (reduce_lem result result (omega arith)) ∙ omega arith in
    let t = take-all bs (length bs) refl in (rw (c, n, r, t) refl, rw t (omega arith))
