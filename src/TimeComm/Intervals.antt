-- ===== src/TimeComm/Intervals.antt =====
-- The functions of src/timecomm.c on two or three points of time: `IsDateBetween`,
-- `IsDateBetweenExt`, `GetTimeIntersection` and `GetTimeUnion`. `GetTimet` and `GetTimetStr` call the
-- C library's `mktime` and `localtime`, and are parameters: `timet` and `timet_str`. An output
-- pointer is given by whether it is not NULL.
pub mod Overlap
use tdm.Base.{ℕ, ◌+◌, Bool, true, false, not, ◌&&◌, ◌||◌, Option, none, some, List, if◌then◌else◌}
use tdm.Base.Int.{ℤ, leb_ℤ, ltb_ℤ, eqb_ℤ}

-- `includeMode`: `INCM_GeLe`, `INCM_GtLt`, `INCM_GeLt`, `INCM_GtLe`, and the default branch.
pub data IncludeMode : Type 0 where
  ge_le gt_lt ge_lt gt_le other : IncludeMode

-- Two points of time in order.
pub record Span : Type 0 where
  pub from : ℤ
  pub to : ℤ

abbrev pub in_order : ℤ → ℤ → Span
in_order b e = if ltb_ℤ e b then record { from = e; to = b } else record { from = b; to = e }

-- What `GetTimeIntersection` and `GetTimeUnion` return, and what they write to the output pointers.
pub record Overlapping : Type 0 where
  pub ret : Bool
  pub begin_time : Option (List ℕ)
  pub end_time : Option (List ℕ)

abbrev pub apart : Span → Span → Bool
apart s t = ltb_ℤ t.to s.from || ltb_ℤ s.to t.from

abbrev pub is_empty : Span → Bool
is_empty s = eqb_ℤ s.from s.to

abbrev pub later : ℤ → ℤ → ℤ
later a b = if ltb_ℤ a b then b else a

abbrev pub earlier : ℤ → ℤ → ℤ
earlier a b = if ltb_ℤ a b then a else b

module _ (timet : List ℕ → ℤ) (timet_str : ℤ → List ℕ) where
  unfoldable pub is_date_between_ext : List ℕ → List ℕ → List ℕ → IncludeMode → Bool
  is_date_between_ext checked begin end ge_le =
      leb_ℤ (timet begin) (timet checked) && leb_ℤ (timet checked) (timet end)
  is_date_between_ext checked begin end gt_lt =
      ltb_ℤ (timet begin) (timet checked) && ltb_ℤ (timet checked) (timet end)
  is_date_between_ext checked begin end ge_lt =
      leb_ℤ (timet begin) (timet checked) && ltb_ℤ (timet checked) (timet end)
  is_date_between_ext checked begin end gt_le =
      ltb_ℤ (timet begin) (timet checked) && leb_ℤ (timet checked) (timet end)
  is_date_between_ext checked begin end other =
      leb_ℤ (timet begin) (timet checked) && leb_ℤ (timet checked) (timet end)

  unfoldable pub is_date_between : List ℕ → List ℕ → List ℕ → Bool
  is_date_between checked begin end =
      leb_ℤ (timet begin) (timet checked) && leb_ℤ (timet checked) (timet end)

  abbrev pub write_time : Bool → ℤ → Option (List ℕ)
  write_time wanted t = if wanted then some (timet_str t) else none

  unfoldable pub intersect : Span → Span → Bool → Bool → Overlapping
  intersect s t want_begin want_end =
      if (apart s t || is_empty s) || is_empty t
      then record { ret = false; begin_time = none; end_time = none }
      else record {
        ret = true;
        begin_time = write_time want_begin (later s.from t.from);
        end_time = write_time want_end (earlier s.to t.to);
      }

  unfoldable pub unite : Span → Span → Bool → Bool → Overlapping
  unite s t want_begin want_end =
      if apart s t then record { ret = false; begin_time = none; end_time = none } else record {
        ret = true;
        begin_time = write_time want_begin (earlier s.from t.from);
        end_time = write_time want_end (later s.to t.to);
      }

  abbrev pub span_of : List ℕ → List ℕ → Span
  span_of begin end = in_order (timet begin) (timet end)

  unfoldable pub get_time_intersection :
      List ℕ → List ℕ → List ℕ → List ℕ → Bool → Bool → Overlapping
  get_time_intersection begin1 end1 begin2 end2 =
      intersect (span_of begin1 end1) (span_of begin2 end2)

  unfoldable pub get_time_union : List ℕ → List ℕ → List ℕ → List ℕ → Bool → Bool → Overlapping
  get_time_union begin1 end1 begin2 end2 = unite (span_of begin1 end1) (span_of begin2 end2)
