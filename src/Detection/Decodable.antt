-- ===== src/Detection/Decodable.antt =====
-- The configurations and tensor shapes that the decoder takes, described without its checks.
use onboard_autonomy.Base.{
  ℕ, ◌+◌, ◌*◌, ◌%◌, ◌<◌, ◌≡◌, ◌≢◌, refl, ◌∙◌, ap, ◌↔◌, true, false, not, ◌||◌, leb, ◌==◌, List, [],
  ◌∷◌, All, arith, ℤ, pos, negsuc, is_negative, pos_part, Floating, Outcome, returned, thrown, ◌>>◌,
  accepted, both_returned, neither, none_of, double_negation, positive, refuse_none,
}
use onboard_autonomy.Detection.Decoder.{
  YoloXDecoderConfig, is_nil, validate_strides, validate_class_ids, validate_config, bad_config,
}
use onboard_autonomy.Camera.Ports.{u64_mod}
use onboard_autonomy.Detection.Grid.{cell_count}

-- The stride is positive and divides the input size.
abbrev pub IsStride : ℕ → ℕ → Type 0
IsStride input_size stride = (0 < stride) × (input_size % stride ≡ 0)

abbrev pub IsClassId : ℕ → ℤ → Type 0
IsClassId class_count (pos n) = n < class_count
IsClassId class_count (negsuc n) = ⊥

validate_strides-IsStride :
    (input_size : ℕ) (strides : List ℕ)
    → (validate_strides input_size strides ≡ returned tt) ↔ All (IsStride input_size) strides
unfolding validate_strides
validate_strides-IsStride input_size [] = ((λ e. tt), λ h. refl)
validate_strides-IsStride input_size (stride ∷ rest) = (
  λ e.
      let (fits, later) = accepted (stride == 0 || not (input_size % stride == 0)) _ _ tt e in
      let (nonzero, divides) = neither (stride == 0) _ fits in
      (
        (positive stride nonzero, divisor divides),
        (validate_strides-IsStride input_size rest).0 later,
      ),
  λ h.
      refuse_none (stride == 0 || not (input_size % stride == 0)) _
        (validate_strides input_size rest) (fits_from h.0)
      ∙ (validate_strides-IsStride input_size rest).1 h.1,
)
  where
    divisor : not (input_size % stride == 0) ≡ false → input_size % stride ≡ 0
    divisor h = ground arith

    fits_from : IsStride input_size stride → (stride == 0 || not (input_size % stride == 0)) ≡ false
    fits_from h = none_of _ _ (nonzero h.0) (divides h.1)
      where
        nonzero : 0 < stride → (stride == 0) ≡ false
        nonzero h = ground arith

        divides : input_size % stride ≡ 0 → not (input_size % stride == 0) ≡ false
        divides h = ground arith

id_below_iff :
    (class_count : ℕ) (id : ℤ)
    → ((is_negative id || leb class_count (pos_part id)) ≡ false) ↔ IsClassId class_count id
id_below_iff class_count (pos n) = (below, fits)
  where
    below : leb class_count n ≡ false → n < class_count
    below h = ground arith

    fits : n < class_count → leb class_count n ≡ false
    fits h = ground arith
id_below_iff class_count (negsuc n) = ((λ h. cc), λ h. absurd h)

validate_class_ids-IsClassId :
    (class_count : ℕ) (ids : List ℤ)
    → (validate_class_ids class_count ids ≡ returned tt) ↔ All (IsClassId class_count) ids
unfolding validate_class_ids
validate_class_ids-IsClassId class_count [] = ((λ e. tt), λ h. refl)
validate_class_ids-IsClassId class_count (id ∷ rest) = (
  λ e.
      let (fits, later) = accepted (is_negative id || leb class_count (pos_part id)) _ _ tt e in
      (
        (id_below_iff class_count id).0 fits,
        (validate_class_ids-IsClassId class_count rest).0 later,
      ),
  λ h.
      refuse_none (is_negative id || leb class_count (pos_part id)) _
        (validate_class_ids class_count rest) ((id_below_iff class_count id).1 h.0)
      ∙ (validate_class_ids-IsClassId class_count rest).1 h.1,
)

then_both : (m k : Outcome (Unit {0})) → m ≡ returned tt → k ≡ returned tt → (m >> k) ≡ returned tt
then_both (returned u) k h e = e
then_both (thrown f) k h e = cc

module _ {F : Type 0} ⦃fp : Floating F⦄ where
  pub record IsConfig (c : YoloXDecoderConfig F) : Type 0 where
    pub some_class : 0 < c.class_count
    pub some_input : 0 < c.input_size
    pub some_stride : c.strides ≢ []
    pub threshold_finite : fp.is_finite c.confidence_threshold ≡ true
    pub threshold_from_zero : fp.flt c.confidence_threshold (fp.of_int (pos 0)) ≡ false
    pub threshold_to_one : fp.flt (fp.of_int (pos 1)) c.confidence_threshold ≡ false
    pub strides_divide : All (IsStride c.input_size) c.strides
    pub ids_within : All (IsClassId c.class_count) c.accepted_class_ids

  -- The checks let a configuration through exactly when it is one.
  pub validate_config-IsConfig :
      (c : YoloXDecoderConfig F) → (validate_config c ≡ returned tt) ↔ IsConfig c
  unfolding validate_config
  validate_config-IsConfig c = (sound, complete)
    where
      sound : validate_config c ≡ returned tt → IsConfig c
      sound e =
          let (fits, later) = accepted (bad_config c) _ _ tt e in
          let (strides, ids) = both_returned (validate_strides c.input_size c.strides) _ tt later in
          let (classes, f1) = neither _ _ fits in
          let (input, f2) = neither _ _ f1 in
          let (some_strides, f3) = neither _ _ f2 in
          let (finite, f4) = neither _ _ f3 in
          let (from_zero, to_one) = neither _ _ f4 in
          record {
            some_class = positive c.class_count classes;
            some_input = positive c.input_size input;
            some_stride = is_nil-ne c.strides some_strides;
            threshold_finite = double_negation (fp.is_finite c.confidence_threshold) finite;
            threshold_from_zero = from_zero;
            threshold_to_one = to_one;
            strides_divide = (validate_strides-IsStride c.input_size c.strides).0 strides;
            ids_within = (validate_class_ids-IsClassId c.class_count c.accepted_class_ids).0 ids;
          }
        where
          is_nil-ne : (l : List ℕ) → is_nil l ≡ false → l ≢ []
          is_nil-ne [] h e = cc
          is_nil-ne (a ∷ l) h e = cc

      complete : IsConfig c → validate_config c ≡ returned tt
      complete k =
          refuse_none (bad_config c) _ _ (not_bad k)
          ∙ then_both _ _ ((validate_strides-IsStride c.input_size c.strides).1 k.strides_divide)
              ((validate_class_ids-IsClassId c.class_count c.accepted_class_ids).1 k.ids_within)
        where
          ne-is_nil : (l : List ℕ) → l ≢ [] → is_nil l ≡ false
          ne-is_nil [] h = absurd (h refl)
          ne-is_nil (a ∷ l) h = refl

          nonzero : (n : ℕ) → 0 < n → (n == 0) ≡ false
          nonzero n h = ground arith

          not_bad : IsConfig c → bad_config c ≡ false
          not_bad k = none_of _ _ (nonzero c.class_count k.some_class) (
              none_of _ _ (nonzero c.input_size k.some_input) (
                none_of _ _ (ne-is_nil c.strides k.some_stride) (
                  none_of _ _ (ap not k.threshold_finite)
                    (none_of _ _ k.threshold_from_zero k.threshold_to_one))))

  -- The shape of the tensor: a row for each cell, with a box, an objectness and the class scores. Its
  -- size and the number of its columns are of `std::size_t`.
  pub record IsShape (c : YoloXDecoderConfig F) (size row_count column_count : ℕ) : Type 0 where
    pub rows : row_count ≡ cell_count c.input_size c.strides
    pub columns : column_count ≡ 5 + c.class_count
    pub cells : size ≡ row_count * column_count
    pub columns_fit : column_count < u64_mod
    pub size_fits : size < u64_mod

  -- The same, as far as the arithmetic of `std::size_t` tells.
  pub record IsWrappedShape (c : YoloXDecoderConfig F) (size row_count column_count : ℕ)
      : Type 0 where
    pub rows : row_count ≡ cell_count c.input_size c.strides
    pub columns : column_count ≡ (5 + c.class_count) % u64_mod
    pub cells : size ≡ row_count * column_count % u64_mod

  pub IsShape-IsWrappedShape :
      (c : YoloXDecoderConfig F) (size row_count column_count : ℕ)
      → IsShape c size row_count column_count
      → IsWrappedShape c size row_count column_count
  IsShape-IsWrappedShape c size row_count column_count k = record {
    rows = k.rows;
    columns = fits column_count (5 + c.class_count) k.columns k.columns_fit;
    cells = fits size (row_count * column_count) k.cells k.size_fits;
  }
    where
      fits : (m n : ℕ) → m ≡ n → m < u64_mod → m ≡ n % u64_mod
      fits m n e h = omega arith
