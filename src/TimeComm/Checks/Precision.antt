-- ===== src/TimeComm/Checks/Precision.antt =====
-- `IsValidDateExt` does not look behind the characters that its precision keeps.
use tdm.Base.{ℕ, ◌≡◌, ◌↔◌, true, false, ◌&&◌, List, take, arith}
use tdm.Base.Int.{ℤ, ◌≤ℤ◌, ◌<ℤ◌, leb_ℤ, ltb_ℤ}
use tdm.TimeComm.Intervals.{ge_le, gt_lt, ge_lt, gt_le, is_date_between_ext}
use tdm.TimeComm.Checks.{DatePreMode, kept_of, cut, is_valid_date_ext}

begins :
    (b e : ℤ)
    → (((leb_ℤ b b && leb_ℤ b e) ≡ true) ↔ (b ≤ℤ e))
      × ((((leb_ℤ b b && ltb_ℤ b e) ≡ true) ↔ (b <ℤ e))
          × (((ltb_ℤ b b && ltb_ℤ b e) ≡ false) × ((ltb_ℤ b b && leb_ℤ b e) ≡ false)))
begins b e = ground arith

-- A date in the same day, hour, minute or second as the beginning, as the precision has it, is
-- accepted by `IsValidDateExt` under `INCM_GeLe` exactly when the beginning, cut to the precision,
-- is not after the end, under `INCM_GeLt` exactly when it is before the end, and never under
-- `INCM_GtLt` and `INCM_GtLe`, whatever the rest of the three texts is.
pub is_valid_date_ext-cut :
    (timet : List ℕ → ℤ) (timet_str : ℤ → List ℕ) (mode : DatePreMode) (checked begin end : List ℕ)
    → take (kept_of mode) checked ≡ take (kept_of mode) begin
    → ((is_valid_date_ext timet timet_str checked begin end ge_le mode ≡ true)
        ↔ (timet (cut mode begin) ≤ℤ timet (cut mode end)))
      × (((is_valid_date_ext timet timet_str checked begin end ge_lt mode ≡ true)
            ↔ (timet (cut mode begin) <ℤ timet (cut mode end)))
          × ((is_valid_date_ext timet timet_str checked begin end gt_lt mode ≡ false)
              × (is_valid_date_ext timet timet_str checked begin end gt_le mode ≡ false)))
unfolding is_valid_date_ext is_date_between_ext
is_valid_date_ext-cut timet timet_str mode checked begin end same =
    rw same (begins (timet (cut mode begin)) (timet (cut mode end)))
