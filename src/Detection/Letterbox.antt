-- ===== src/Detection/Letterbox.antt =====
-- YoloXImagePreprocessor.cpp: the size of a frame in the detector's square input.
use onboard_autonomy.Base.{
  ℕ, ◌<◌, contrary, ◌==◌, ◌≡◌, refl, ◌⊎◌, inl, inr, Bool, true, false, ◌||◌, Bool-cases,
  if◌then◌else◌, pos, text, arith, Floating, Outcome, returned, ◌>>◌, refuse_if, Returns,
}

pub record YoloXLetterboxGeometry (F : Type 0) : Type 0 where
  pub resized_width : ℕ
  pub resized_height : ℕ
  pub scale : F

-- What IEEE 754 says of `<`: no value is below itself, and the order is transitive.
pub record StrictOrder (F : Type 0) (fp : Floating F) : Type 0 where
  pub lt_irreflexive : (a : F) → fp.flt a a ≡ false
  pub lt_transitive : (a b c : F) → fp.flt a b ≡ true → fp.flt b c ≡ true → fp.flt a c ≡ true

module _ {F : Type 0} ⦃fp : Floating F⦄ where
  -- `std::min`
  abbrev pub smaller : F → F → F
  smaller a b = if fp.flt b a then b else a

  abbrev pub scale_to : ℕ → ℕ → F
  scale_to input_size size = fp.div (fp.of_int (pos input_size)) (fp.of_int (pos size))

  abbrev pub resized : ℕ → F → ℕ
  resized size scale = fp.to_nat (fp.round (fp.mul (fp.of_int (pos size)) scale))

  unfoldable pub make_yolox_letterbox_geometry : ℕ → ℕ → ℕ → Outcome (YoloXLetterboxGeometry F)
  make_yolox_letterbox_geometry source_width source_height input_size = do
    refuse_if (source_width == 0 || (source_height == 0 || input_size == 0))
        (text "YOLOX letterbox dimensions must be non-zero")
    let scale = smaller (scale_to input_size source_width) (scale_to input_size source_height)
    returned (record {
      resized_width = resized source_width scale;
      resized_height = resized source_height scale;
      scale = scale;
    })

  -- The scale is one of the two, and none of the two is below it.
  abbrev pub IsSmaller : F → F → F → Type 0
  IsSmaller a b scale =
      ((scale ≡ a) ⊎ (scale ≡ b)) × ((fp.flt a scale ≡ false) × (fp.flt b scale ≡ false))

  smaller-IsSmaller : StrictOrder F fp → (a b : F) → IsSmaller a b (smaller a b)
  smaller-IsSmaller order a b = by_order (fp.flt b a) refl
    where
      by_order : (l : Bool) → fp.flt b a ≡ l → IsSmaller a b (if l then b else a)
      by_order true below =
          (inr refl, (not_below (Bool-cases (fp.flt a b)), order.lt_irreflexive b))
        where
          not_below : (fp.flt a b ≡ true) ⊎ (fp.flt a b ≡ false) → fp.flt a b ≡ false
          not_below (inl above) =
              contrary (fp.flt b b) (order.lt_transitive b a b below above) (order.lt_irreflexive b)
          not_below (inr other) = other
      by_order false other = (inl refl, (order.lt_irreflexive a, other))

  -- With no size zero, the frame is scaled by the smaller of the two factors that fit its width and
  -- its height into the input, and its sizes are rounded from it; over an irreflexive and transitive
  -- `<`.
  pub make_yolox_letterbox_geometry-IsSmaller :
      (order : StrictOrder F fp) (source_width source_height input_size : ℕ)
      → 0 < source_width
      → 0 < source_height
      → 0 < input_size
      → Returns
          (λ g.
            IsSmaller (scale_to input_size source_width) (scale_to input_size source_height) g.scale
            × ((g.resized_width ≡ resized source_width g.scale)
                × (g.resized_height ≡ resized source_height g.scale)))
          (make_yolox_letterbox_geometry source_width source_height input_size)
  unfolding make_yolox_letterbox_geometry
  make_yolox_letterbox_geometry-IsSmaller order w h n w0 h0 n0 =
      rw (nonzero w w0, nonzero h h0, nonzero n n0)
        (smaller-IsSmaller order (scale_to n w) (scale_to n h), (refl, refl))
    where
      nonzero : (k : ℕ) → 0 < k → (k == 0) ≡ false
      nonzero k h = ground arith
