-- ===== src/Detection/Highest.antt =====
-- `highest_scoring_class` against its description.
use onboard_autonomy.Base.{
  ℕ, zero, suc, ◌+◌, ◌≤◌, ◌<◌, ◌≡◌, refl, sym, ap, ◌∙◌, ◌⊎◌, inl, inr, Bool, true, false, ◌&&◌,
  Bool-cases, contrary, some, List, length, get_elem?, get_elem?-within, arith, if◌then◌else◌, ℤ,
  pos, negsuc, Floating, returned, ◌>>=◌, Returns, >>=-Returns,
}
use mathlib.Core.Path.{subst}
use onboard_autonomy.Detection.Decoder.{
  YoloXDecoderConfig, to_int32, class_scores_offset, accepted_class, in_bounds, select, class_step,
  scan_classes, highest_scoring_class,
}
use onboard_autonomy.Detection.Letterbox.{StrictOrder}

some_inj {ℓ} : {A : Type ℓ} {a b : A} → some a ≡ some b → a ≡ b
some_inj h = cc

module _ {F : Type 0} ⦃fp : Floating F⦄ where
  -- An accepted class below the bound, with its finite and positive score.
  pub record IsScored (c : YoloXDecoderConfig F) (row : List F) (bound : ℕ) (selected : ℤ × F)
      : Type 0 where
    pub index : ℕ
    pub below : index < bound
    pub named : selected.0 ≡ to_int32 index
    pub accepted : accepted_class (to_int32 index) c ≡ true
    pub scored : get_elem? row (class_scores_offset + index) ≡ some selected.1
    pub finite : fp.is_finite selected.1 ≡ true
    pub positive : fp.flt (fp.of_int (pos 0)) selected.1 ≡ true

  -- No accepted class below the bound has a finite score above the selected one, which is a class's
  -- or, where no class has a positive one, -1 with zero.
  pub record IsHighest (c : YoloXDecoderConfig F) (row : List F) (bound : ℕ) (selected : ℤ × F)
      : Type 0 where
    pub unbeaten :
        (index : ℕ) (score : F)
        → index < bound
        → accepted_class (to_int32 index) c ≡ true
        → get_elem? row (class_scores_offset + index) ≡ some score
        → fp.is_finite score ≡ true
        → fp.flt selected.1 score ≡ false
    pub origin : (selected ≡ (negsuc 0, fp.of_int (pos 0))) ⊎ IsScored c row bound selected

  module _ (order : StrictOrder F fp) (c : YoloXDecoderConfig F) (row : List F) where
    -- What is not above a value is not above a larger one.
    not_above : (a b v : F) → fp.flt a b ≡ true → fp.flt a v ≡ false → fp.flt b v ≡ false
    not_above a b v h k = elim (Bool-cases (fp.flt b v)) [
      | inl above ↦ contrary (fp.flt a v) (order.lt_transitive a b v h above) k
      | inr other ↦ other
    ]

    below_suc : (i n : ℕ) → i < suc n → (i < n) ⊎ (i ≡ n)
    below_suc i n h = ground arith

    wider :
        (index : ℕ) (selected : ℤ × F)
        → IsScored c row index selected
        → IsScored c row (suc index) selected
    wider index selected s = record {
      index = s.index;
      below = one_more s.index index s.below;
      named = s.named;
      accepted = s.accepted;
      scored = s.scored;
      finite = s.finite;
      positive = s.positive;
    }
      where
        one_more : (i n : ℕ) → i < n → i < suc n
        one_more i n h = omega arith

    -- A score that is not taken leaves the selection the highest.
    skipped-IsHighest :
        (index : ℕ) (selected : ℤ × F)
        → IsHighest c row index selected
        → ((score : F)
            → accepted_class (to_int32 index) c ≡ true
            → get_elem? row (class_scores_offset + index) ≡ some score
            → fp.is_finite score ≡ true
            → fp.flt selected.1 score ≡ false)
        → IsHighest c row (suc index) selected
    skipped-IsHighest index selected k new = record {
      unbeaten =
          λ i score below ok at finite. by_index i score (below_suc i index below) ok at finite;
      origin = elim k.origin [ inl none_yet ↦ inl none_yet | inr s ↦ inr (wider index selected s) ];
    }
      where
        by_index :
            (i : ℕ) (score : F)
            → (i < index) ⊎ (i ≡ index)
            → accepted_class (to_int32 i) c ≡ true
            → get_elem? row (class_scores_offset + i) ≡ some score
            → fp.is_finite score ≡ true
            → fp.flt selected.1 score ≡ false
        by_index i score (inl less) ok at finite = k.unbeaten i score less ok at finite
        by_index i score (inr e) ok at finite =
            new score (ap (λ n. accepted_class (to_int32 n) c) (sym e) ∙ ok)
              (ap (λ n. get_elem? row (class_scores_offset + n)) (sym e) ∙ at) finite

    -- A finite score above the selected one is the highest so far.
    taken-IsHighest :
        (index : ℕ) (selected : ℤ × F) (score : F)
        → IsHighest c row index selected
        → accepted_class (to_int32 index) c ≡ true
        → get_elem? row (class_scores_offset + index) ≡ some score
        → fp.is_finite score ≡ true
        → fp.flt selected.1 score ≡ true
        → IsHighest c row (suc index) (to_int32 index, score)
    taken-IsHighest index selected score k ok at finite above = record {
      unbeaten =
          λ i other below ok at' finite'. by_index i other (below_suc i index below) ok at' finite';
      origin = inr record {
        index = index;
        below = self_below index;
        named = refl;
        accepted = ok;
        scored = at;
        finite = finite;
        positive = from_origin k.origin;
      };
    }
      where
        self_below : (n : ℕ) → n < suc n
        self_below n = omega arith

        from_origin :
            (selected ≡ (negsuc 0, fp.of_int (pos 0))) ⊎ IsScored c row index selected
            → fp.flt (fp.of_int (pos 0)) score ≡ true
        from_origin (inl e) = ap (λ s. fp.flt s.1 score) (sym e) ∙ above
        from_origin (inr s) =
            order.lt_transitive (fp.of_int (pos 0)) selected.1 score s.positive above

        same_score :
            (i : ℕ) (other : F)
            → i ≡ index
            → get_elem? row (class_scores_offset + i) ≡ some other
            → score ≡ other
        same_score i other e at' =
            some_inj (sym at ∙ ap (λ n. get_elem? row (class_scores_offset + n)) (sym e) ∙ at')

        by_index :
            (i : ℕ) (other : F)
            → (i < index) ⊎ (i ≡ index)
            → accepted_class (to_int32 i) c ≡ true
            → get_elem? row (class_scores_offset + i) ≡ some other
            → fp.is_finite other ≡ true
            → fp.flt score other ≡ false
        by_index i other (inl less) ok at' finite' =
            not_above selected.1 score other above (k.unbeaten i other less ok at' finite')
        by_index i other (inr e) ok at' finite' =
            ap (λ v. fp.flt score v) (sym (same_score i other e at')) ∙ order.lt_irreflexive score

    select-IsHighest :
        (index : ℕ) (selected : ℤ × F) (score : F)
        → IsHighest c row index selected
        → accepted_class (to_int32 index) c ≡ true
        → get_elem? row (class_scores_offset + index) ≡ some score
        → IsHighest c row (suc index) (select (to_int32 index) score selected)
    select-IsHighest index selected score k ok at =
        by_finite (fp.is_finite score) refl (fp.flt selected.1 score) refl
      where
        by_finite :
            (f : Bool)
            → fp.is_finite score ≡ f
            → (l : Bool) → fp.flt selected.1 score ≡ l
            → IsHighest c row (suc index) (
                if◌then◌else◌ {A = ℤ × F} (f && l) (to_int32 index, score) (selected.0, selected.1))
        by_finite true finite true above = taken-IsHighest index selected score k ok at finite above
        by_finite true finite false other =
            skipped-IsHighest index selected k
              (λ v ok' at' finite'. ap (λ w. fp.flt selected.1 w) (some_inj (sym at' ∙ at)) ∙ other)
        by_finite false infinite l other = skipped-IsHighest index selected k (λ v ok' at' finite'.
            contrary (fp.is_finite v) finite'
              (ap fp.is_finite (some_inj (sym at' ∙ at)) ∙ infinite))

    step-IsHighest :
        (ok : Bool) (index : ℕ) (selected : ℤ × F)
        → accepted_class (to_int32 index) c ≡ ok
        → class_scores_offset + index < length row
        → IsHighest c row index selected
        → Returns (IsHighest c row (suc index)) (class_step ok index row selected)
    unfolding class_step
    step-IsHighest false index selected refused within k =
        skipped-IsHighest index selected k (λ v ok at finite. contrary _ ok refused)
    step-IsHighest true index selected ok within k =
        let (score, at) = get_elem?-within row (class_scores_offset + index) within in read score at
      where
        read :
            (score : F)
            → get_elem? row (class_scores_offset + index) ≡ some score
            → Returns (IsHighest c row (suc index)) (
                in_bounds (get_elem? row (class_scores_offset + index)) >>= λ s.
                returned (select (to_int32 index) s selected))
        read score at = rw at (select-IsHighest index selected score k ok at)

    scan-IsHighest :
        (n index bound : ℕ) (selected : ℤ × F)
        → n + index ≡ bound
        → class_scores_offset + bound ≤ length row
        → IsHighest c row index selected
        → Returns (IsHighest c row bound) (scan_classes n index row c selected)
    unfolding scan_classes
    scan-IsHighest zero index bound selected e within k =
        subst (λ b. IsHighest c row b selected) (omega arith) k
    scan-IsHighest (suc n) index bound selected e within k =
        >>=-Returns (IsHighest c row (suc index)) (IsHighest c row bound)
          (class_step (accepted_class (to_int32 index) c) index row selected)
          (λ next. scan_classes n (suc index) row c next)
          (step-IsHighest (accepted_class (to_int32 index) c) index selected refl (omega arith) k)
          (λ next kept. scan-IsHighest n (suc index) bound next (omega arith) within kept)

    -- On a row with a score for every class, over an irreflexive and transitive `<`, the loop returns
    -- the accepted class with a finite score that no other accepted class's finite score is above,
    -- and its score; or -1 and zero, where no accepted class has a finite score above zero.
    pub highest_scoring_class-IsHighest :
        class_scores_offset + c.class_count ≤ length row
        → Returns (IsHighest c row c.class_count) (highest_scoring_class row c)
    unfolding highest_scoring_class
    highest_scoring_class-IsHighest within =
        scan-IsHighest c.class_count 0 c.class_count (negsuc 0, fp.of_int (pos 0)) (omega arith)
          within
          (record { unbeaten = λ i score below ok at finite. no_index i below; origin = inl refl })
      where
        no_index : {A : Type 0} (i : ℕ) → i < 0 → A
        no_index i h = absurd (omega arith)
