-- ===== src/TimeComm/Intervals/Overlap.antt =====
-- What is common to two spans of time, and what they cover together.
use tdm.Base.{
  ℕ, ◌≡◌, ◌≢◌, ◌∙◌, sym, ◌↔◌, ◌⊎◌, inl, inr, Bool, true, false, not, some, List, arith, Bool-cases,
}
use tdm.Base.Int.{ℤ, ◌≤ℤ◌}
use tdm.TimeComm.Intervals.{
  Span, in_order, apart, later, earlier, intersect, unite, get_time_intersection, get_time_union,
}

-- A point of time between two others, in whichever order they are given.
abbrev pub Within : ℤ → ℤ → ℤ → Type 0
Within t a b = ((a ≤ℤ t) × (t ≤ℤ b)) ⊎ ((b ≤ℤ t) × (t ≤ℤ a))

abbrev In : ℤ → Span → Type 0
In t s = (s.from ≤ℤ t) × (t ≤ℤ s.to)

In-order : (t a b : ℤ) → In t (in_order a b) ↔ Within t a b
In-order t a b = ground arith

ordered : (a b : ℤ) → (in_order a b).from ≤ℤ (in_order a b).to
ordered a b = ground arith

both_iff : {P A B A' B' : Type 0} → P ↔ (A × B) → A ↔ A' → B ↔ B' → P ↔ (A' × B')
both_iff p a b = (λ x. (a.0 (p.0 x).0, b.0 (p.0 x).1), λ y. p.1 (a.1 y.0, b.1 y.1))

either_iff : {P A B A' B' : Type 0} → P ↔ (A ⊎ B) → A ↔ A' → B ↔ B' → P ↔ (A' ⊎ B')
either_iff p a b = (
  λ x. elim (p.0 x) [ inl y ↦ inl (a.0 y) | inr y ↦ inr (b.0 y) ],
  λ z. elim z [ inl y ↦ p.1 (inl (a.1 y)) | inr y ↦ p.1 (inr (b.1 y)) ],
)

module _ (timet : List ℕ → ℤ) (timet_str : ℤ → List ℕ) where
  intersect-true :
      (s t : Span)
      → (intersect timet timet_str s t true true).ret ≡ true
      → ((s.from ≢ s.to) × (t.from ≢ t.to))
        × ((apart s t ≡ false)
            × (intersect timet timet_str s t true true ≡ record {
              ret = true;
              begin_time = some (timet_str (later s.from t.from));
              end_time = some (timet_str (earlier s.to t.to));
            }))
  unfolding intersect
  intersect-true s t h = ((ground arith, ground arith), (ground arith, ground arith))

  intersect-false :
      (s t : Span)
      → (intersect timet timet_str s t true true).ret ≡ false
      → (apart s t ≡ true) ⊎ ((s.from ≡ s.to) ⊎ (t.from ≡ t.to))
  unfolding intersect
  intersect-false s t h = ground arith

common :
    (x : ℤ) (s t : Span)
    → In x (record { from = later s.from t.from; to = earlier s.to t.to }) ↔ (In x s × In x t)
common x s t = ground arith

disjoint : (x : ℤ) (s t : Span) → not (apart s t) ≡ false → ¬ (In x s × In x t)
disjoint x s t h both = ground arith

separate : (x : ℤ) (s t : Span) → apart s t ≡ true → ¬ (In x s × In x t)
separate x s t h both = ground arith

overlaps :
    (s t : Span)
    → s.from ≤ℤ s.to
    → t.from ≤ℤ t.to
    → apart s t ≡ false
    → later s.from t.from ≤ℤ earlier s.to t.to
overlaps s t hs ht h = ground arith

point_order : (a b : ℤ) → a ≡ b → (in_order a b).from ≡ (in_order a b).to
point_order a b e = ground arith

order_point : (a b : ℤ) → (in_order a b).from ≡ (in_order a b).to → a ≡ b
order_point a b e = ground arith

covered :
    (x : ℤ) (s t : Span)
    → s.from ≤ℤ s.to
    → t.from ≤ℤ t.to
    → apart s t ≡ false
    → In x (record { from = earlier s.from t.from; to = later s.to t.to }) ↔ (In x s ⊎ In x t)
covered x s t hs ht h = ground arith

module _ (timet : List ℕ → ℤ) (timet_str : ℤ → List ℕ) where
  unite-true :
      (s t : Span)
      → (unite timet timet_str s t true true).ret ≡ true
      → (apart s t ≡ false)
        × (unite timet timet_str s t true true ≡ record {
          ret = true;
          begin_time = some (timet_str (earlier s.from t.from));
          end_time = some (timet_str (later s.to t.to));
        })
  unfolding unite
  unite-true s t h = ground arith

  unite_ret : (s t : Span) (p q : Bool) → (unite timet timet_str s t p q).ret ≡ not (apart s t)
  unfolding unite
  unite_ret s t p q = ground arith

  -- `GetTimeIntersection`, with both output pointers given, either succeeds, when neither span is a
  -- single point of time, and the two times that it writes, the first not behind the second, enclose
  -- exactly the points of time that lie in both spans, whichever end of a span is given first; or it
  -- fails, and no point of time lies in both spans or one of them is a single point.
  pub get_time_intersection-Within :
      (b1 e1 b2 e2 : List ℕ)
      → (((get_time_intersection timet timet_str b1 e1 b2 e2 true true).ret ≡ true)
          × (((timet b1 ≢ timet e1) × (timet b2 ≢ timet e2))
              × ((from to : ℤ) × ((get_time_intersection timet timet_str b1 e1 b2 e2 true true
                      ≡ record {
                        ret = true;
                        begin_time = some (timet_str from);
                        end_time = some (timet_str to);
                      })
                    × ((from ≤ℤ to)
                        × ((x : ℤ)
                            → ((from ≤ℤ x) × (x ≤ℤ to)) ↔ (
                                Within x (timet b1) (timet e1)
                                × Within x (timet b2) (timet e2))))))))
        ⊎ (((get_time_intersection timet timet_str b1 e1 b2 e2 true true).ret ≡ false)
            × (((x : ℤ) → ¬ (Within x (timet b1) (timet e1) × Within x (timet b2) (timet e2)))
                ⊎ ((timet b1 ≡ timet e1) ⊎ (timet b2 ≡ timet e2))))
  unfolding get_time_intersection
  get_time_intersection-Within b1 e1 b2 e2 =
      let s = in_order (timet b1) (timet e1) in
      let t = in_order (timet b2) (timet e2) in
      let hs = ordered (timet b1) (timet e1) in
      let ht = ordered (timet b2) (timet e2) in
      elim (Bool-cases (intersect timet timet_str s t true true).ret) [
        | inl good ↦
            let ((long1, long2), (near, writes)) = intersect-true timet timet_str s t good in
            inl (
              good,
              (
                (
                  λ e. long1 (point_order (timet b1) (timet e1) e),
                  λ e. long2 (point_order (timet b2) (timet e2) e),
                ),
                (
                  later s.from t.from,
                  earlier s.to t.to,
                  (
                    writes,
                    (
                      overlaps s t hs ht near,
                      λ x. both_iff (common x s t) (In-order x _ _) (In-order x _ _),
                    ),
                  ),
                ),
              ),
            )
        | inr bad ↦ inr (
          bad,
          elim (intersect-false timet timet_str s t bad) [
            | inl far ↦ inl (λ x both.
                separate x s t far ((In-order x _ _).1 both.0, (In-order x _ _).1 both.1))
            | inr (inl e) ↦ inr (inl (order_point (timet b1) (timet e1) e))
            | inr (inr e) ↦ inr (inr (order_point (timet b2) (timet e2) e))
          ],
        )
      ]

  -- `GetTimeUnion`, with both output pointers given, either succeeds, and the two times that it
  -- writes enclose exactly the points of time that lie in one of the spans at least, or fails, and no
  -- point of time lies in both spans.
  pub get_time_union-Within :
      (b1 e1 b2 e2 : List ℕ)
      → (((get_time_union timet timet_str b1 e1 b2 e2 true true).ret ≡ true)
          × ((from to : ℤ) × ((get_time_union timet timet_str b1 e1 b2 e2 true true ≡ record {
            ret = true;
            begin_time = some (timet_str from);
            end_time = some (timet_str to);
          })
                × ((x : ℤ)
                    → ((from ≤ℤ x) × (x ≤ℤ to))
                      ↔ (Within x (timet b1) (timet e1) ⊎ Within x (timet b2) (timet e2))))))
        ⊎ (((get_time_union timet timet_str b1 e1 b2 e2 true true).ret ≡ false)
            × ((x : ℤ) → ¬ (Within x (timet b1) (timet e1) × Within x (timet b2) (timet e2))))
  unfolding get_time_union
  get_time_union-Within b1 e1 b2 e2 =
      let s = in_order (timet b1) (timet e1) in
      let t = in_order (timet b2) (timet e2) in
      let hs = ordered (timet b1) (timet e1) in
      let ht = ordered (timet b2) (timet e2) in
      elim (Bool-cases (unite timet timet_str s t true true).ret) [
        | inl good ↦
            let (near, writes) = unite-true s t good in
            inl (
              good,
              (
                earlier s.from t.from,
                later s.to t.to,
                (
                  writes,
                  λ x. either_iff (covered x s t hs ht near) (In-order x _ _) (In-order x _ _),
                ),
              ),
            )
        | inr bad ↦
            let far = sym (unite_ret s t true true) ∙ bad in
            inr (
              bad,
              λ x both. disjoint x s t far ((In-order x _ _).1 both.0, (In-order x _ _).1 both.1),
            )
      ]
