-- ===== src/Detection/Within.antt =====
-- The boxes of OpenCvDnnTargetDetector.cpp and the size of the frame.
use onboard_autonomy.Base.{
  ℕ, ◌+◌, ◌-◌, ◌*◌, ◌/◌, ◌%◌, ◌^◌, ap, ltb, Bool-cases, inl, inr, ◌≤◌, ◌<◌, ◌≡◌, refl, ◌∙◌, ◌==◌,
  Bool, true, false, not, ◌||◌, neither, positive, List, [], ◌∷◌, ◌++◌, get_elem?, if◌then◌else◌,
  All, arith, ℤ, pos, negsuc, Floating, Outcome, returned, thrown, ◌>>=◌, ◌>>◌, refuse_if, text,
  checked, IfReturns, >>=-IfReturns,
}
use mathlib.Core.Path.{subst}
use onboard_autonomy.Camera.Ports.{CameraFrame, TargetObservation}
use onboard_autonomy.Detection.Decoder.{YoloXCandidate, int_eq, to_int32, decode_yolox_output}
use onboard_autonomy.Detection.Detector.{
  OpenCvDnnDetectorConfig, Rect, OpenCv, BoxArithmetic, clamp, clipped, is_empty_box,
  detected_class_ids, candidate_box, point, make_observation, class_boxes, retained_observations,
  observations_of, all_observations, to_bgr, letterbox, single_output, detect_targets, detect,
  expected_yuv420_size, bad_dimensions, int_max, ConvertsSizes,
}

-- A box with an inside, within an image of this width and height.
pub record IsWithin (width height : ℕ) (box : Rect) : Type 0 where
  pub wide : 0 < box.width
  pub high : 0 < box.height
  pub right_within : box.x + box.width ≤ width
  pub bottom_within : box.y + box.height ≤ height

clamp-le : (a : ℤ) (top : ℕ) → clamp a top ≤ top
clamp-le (pos n) top = ground arith
clamp-le (negsuc n) top = omega arith

clipped-IsWithin :
    (left top right bottom : ℤ) (width height : ℕ)
    → is_empty_box (clipped left top right bottom width height) ≡ false
    → IsWithin width height (clipped left top right bottom width height)
clipped-IsWithin left top right bottom width height e =
    let (w, h) = neither _ _ e in
    record {
      wide = positive _ w;
      high = positive _ h;
      right_within =
          side (clamp left width) (clamp right width) width (clamp-le left width)
            (clamp-le right width);
      bottom_within =
          side (clamp top height) (clamp bottom height) height (clamp-le top height)
            (clamp-le bottom height);
    }
  where
    side : (a b top : ℕ) → a ≤ top → b ≤ top → a + (b - a) ≤ top
    side a b top h k = omega arith

-- The dimensions that are let through.
record HasDimensions (width height : ℕ) : Type 0 where
  even_height : height % 2 ≡ 0
  width_fits : width ≤ int_max
  height_fits : height ≤ int_max

bad_dimensions-HasDimensions :
    (width height : ℕ) → bad_dimensions width height ≡ false → HasDimensions width height
bad_dimensions-HasDimensions width height e =
    let (w, e1) = neither (width == 0) _ e in
    let (h, e2) = neither (height == 0) _ e1 in
    let (w2, e3) = neither (not (width % 2 == 0)) _ e2 in
    let (h2, e4) = neither (not (height % 2 == 0)) _ e3 in
    let (wide, high) = neither (ltb int_max width) _ e4 in
    record { even_height = even h2; width_fits = fits width wide; height_fits = fits height high }
  where
    even : not (height % 2 == 0) ≡ false → height % 2 ≡ 0
    even h = ground arith

    fits : (n : ℕ) → ltb int_max n ≡ false → n ≤ int_max
    fits n h = ground arith

to_int32-small : (n : ℕ) → n ≤ int_max → to_int32 n ≡ pos n
to_int32-small n h =
    let small : n % 2 ^ 32 ≡ n = omega arith in
    let below : ltb (n % 2 ^ 32) (2 ^ 31) ≡ true = ground arith in rw below (ap pos small)

module _ {F D : Type 0} ⦃fp : Floating F⦄ ⦃fd : Floating D⦄ (boxes : BoxArithmetic F D) where
  -- The corners of the target are those of a box within the image.
  abbrev pub IsInside : ℕ → ℕ → TargetObservation D → Type 0
  IsInside width height target =
      (box : Rect) × IsWithin width height box
      × (target.corners
          ≡ point boxes box.x box.y
            ∷ point boxes (box.x + box.width) box.y
            ∷ point boxes (box.x + box.width) (box.y + box.height)
            ∷ point boxes box.x (box.y + box.height)
            ∷ [])

  class_boxes-IsWithin :
      (class_id : ℤ) (scale : F) (width height : ℕ) (candidates : List (YoloXCandidate F))
      → All
          (λ s. IsWithin width height s.0)
          (class_boxes boxes class_id scale width height candidates)
  unfolding class_boxes candidate_box
  class_boxes-IsWithin class_id scale width height [] = tt
  class_boxes-IsWithin class_id scale width height (candidate ∷ rest) =
      by_test
        (not (int_eq candidate.class_id class_id)
          || is_empty_box (candidate_box boxes candidate scale width height))
        refl (class_boxes-IsWithin class_id scale width height rest)
    where
      by_test :
          (b : Bool)
          → (not (int_eq candidate.class_id class_id)
              || is_empty_box (candidate_box boxes candidate scale width height))
            ≡ b
          → All
              (λ s. IsWithin width height s.0)
              (class_boxes boxes class_id scale width height rest)
          → All
              (λ (s : Rect × YoloXCandidate F). IsWithin width height s.0)
              (if b
                then class_boxes boxes class_id scale width height rest
                else (candidate_box boxes candidate scale width height, candidate)
                  ∷ class_boxes boxes class_id scale width height rest)
      by_test true e h = h
      by_test false e h = (
        clipped-IsWithin _ _ _ _ width height
            (neither (not (int_eq candidate.class_id class_id)) _ e).1,
        h,
      )

  get_elem?-IsWithin :
      (width height : ℕ) (selected : List (Rect × YoloXCandidate F)) (index : ℕ)
      → All (λ s. IsWithin width height s.0) selected
      → IfReturns (λ s. IsWithin width height s.0) (checked (get_elem? selected index))
  get_elem?-IsWithin width height [] index h = tt
  get_elem?-IsWithin width height (s ∷ selected) ℕ.zero (h, hs) = h
  get_elem?-IsWithin width height (s ∷ selected) (ℕ.suc index) (h, hs) =
      get_elem?-IsWithin width height selected index hs

  retained_observations-IsInside :
      (width height : ℕ) (selected : List (Rect × YoloXCandidate F)) (indices : List ℕ)
      → All (λ s. IsWithin width height s.0) selected
      → IfReturns (All (IsInside width height)) (retained_observations boxes selected indices)
  unfolding retained_observations make_observation
  retained_observations-IsInside width height selected [] h = tt
  retained_observations-IsInside width height selected (index ∷ indices) h =
      >>=-IfReturns (λ s. IsWithin width height s.0) (All (IsInside width height))
        (checked (get_elem? selected index)) _ (get_elem?-IsWithin width height selected index h)
        (λ chosen inside.
          >>=-IfReturns (All (IsInside width height)) (All (IsInside width height))
            (retained_observations boxes selected indices) _
            (retained_observations-IsInside width height selected indices h)
            (λ rest all. ((chosen.0, inside, refl), all)))

  All-append :
      (P : TargetObservation D → Type 0) (xs ys : List (TargetObservation D))
      → All P xs
      → All P ys
      → All P (xs ++ ys)
  All-append P [] ys h k = k
  All-append P (x ∷ xs) ys (h, hs) k = (h, All-append P xs ys hs k)

  module _ {Mat Net : Type 0} (cv : OpenCv Mat Net F) (sizes : ConvertsSizes cv)
      (config : OpenCvDnnDetectorConfig F) where
    all_observations-IsInside :
        (ids : List ℤ) (candidates : List (YoloXCandidate F)) (scale : F) (width height : ℕ)
        → IfReturns
            (All (IsInside width height))
            (all_observations boxes cv config ids candidates scale width height)
    unfolding all_observations
    all_observations-IsInside [] candidates scale width height = tt
    all_observations-IsInside (class_id ∷ ids) candidates scale width height =
        >>=-IfReturns (All (IsInside width height)) (All (IsInside width height))
          (observations_of boxes cv config candidates scale width height class_id) _
          (retained_observations-IsInside width height _ _
            (class_boxes-IsWithin class_id scale width height candidates))
          (λ first inside.
            >>=-IfReturns (All (IsInside width height)) (All (IsInside width height))
              (all_observations boxes cv config ids candidates scale width height) _
              (all_observations-IsInside ids candidates scale width height)
              (λ rest all. All-append (IsInside width height) first rest inside all))

    any_result {ℓ} : {A : Type ℓ} (m : Outcome A) → IfReturns (λ a. Unit {0}) m
    any_result (returned a) = tt
    any_result (thrown f) = tt

    -- The image has the frame's size.
    abbrev IsSized : CameraFrame → Mat → Type 0
    IsSized frame mat = (cv.columns mat ≡ frame.width) × (cv.rows mat ≡ frame.height)

    expected_yuv420_size-HasDimensions :
        (width height : ℕ)
        → IfReturns (λ size. HasDimensions width height) (expected_yuv420_size width height)
    unfolding expected_yuv420_size
    expected_yuv420_size-HasDimensions width height =
        by_dimensions (bad_dimensions width height) refl
      where
        by_dimensions :
            (b : Bool)
            → bad_dimensions width height ≡ b
            → IfReturns
                (λ size. HasDimensions width height)
                (refuse_if b (text "invalid YUV420 frame dimensions")
                  >> returned (width * height + width * height / 2))
        by_dimensions true e = tt
        by_dimensions false e = bad_dimensions-HasDimensions width height e

    bgr_of-IsSized :
        (frame : CameraFrame)
        → HasDimensions frame.width frame.height
        → IfReturns (IsSized frame) (
            cv.bgr_of
              (to_int32 (frame.height + frame.height / 2))
              (to_int32 frame.width)
              frame.yuv420)
    bgr_of-IsSized frame d =
        rw (to_int32-small frame.width d.width_fits)
          (elim (Bool-cases (ltb ((frame.height + frame.height / 2) % 2 ^ 32) (2 ^ 31))) [
            | inl fits ↦
                let r : (frame.height + frame.height / 2) % 2 ^ 32
                    ≡ frame.height + frame.height / 2 =
                  omega (arith, d.height_fits) in
                rw (fits, r)
                  (both_sizes _ (sizes.same_columns _ _ _)
                    (sizes.fewer_rows (frame.height + frame.height / 2) frame.width frame.yuv420))
            | inr wraps ↦ rw wraps (never _ (sizes.refused_rows _ _ _))
          ])
      where
        rows_back : (h : ℕ) → h % 2 ≡ 0 → (h + h / 2) * 2 / 3 ≡ h
        rows_back h e = omega arith

        both_sizes :
            (m : Outcome Mat)
            → IfReturns (λ m. cv.columns m ≡ frame.width) m
            → IfReturns (λ m. cv.rows m ≡ (frame.height + frame.height / 2) * 2 / 3) m
            → IfReturns (IsSized frame) m
        both_sizes (returned m) w h = (w, h ∙ rows_back frame.height d.even_height)
        both_sizes (thrown f) w h = tt

        never : (m : Outcome Mat) → IfReturns (λ m. ⊥) m → IfReturns (IsSized frame) m
        never (returned m) h = absurd h
        never (thrown f) h = tt

    to_bgr-IsSized :
        (frame : CameraFrame) → IfReturns (IsSized frame) (to_bgr boxes cv config frame)
    unfolding to_bgr
    to_bgr-IsSized frame =
        >>=-IfReturns (λ size. HasDimensions frame.width frame.height) (IsSized frame)
          (expected_yuv420_size frame.width frame.height) _
          (expected_yuv420_size-HasDimensions frame.width frame.height)
          (λ size d. by_size _ _ (bgr_of-IsSized frame d))
      where
        by_size :
            (b : Bool) (m : Outcome Mat)
            → IfReturns (IsSized frame) m
            → IfReturns (IsSized frame) (refuse_if b (text "unexpected YUV420 frame size") >> m)
        by_size true m h = tt
        by_size false (returned m) h = h
        by_size false (thrown f) h = tt

    IsInside-same_size :
        (w h width height : ℕ) (m : Outcome (List (TargetObservation D)))
        → w ≡ width
        → h ≡ height
        → IfReturns (All (IsInside w h)) m
        → IfReturns (All (IsInside width height)) m
    IsInside-same_size w h width height m e k inside =
        subst (λ v. IfReturns (All (IsInside width v)) m) k
          (subst (λ v. IfReturns (All (IsInside v h)) m) e inside)

    -- Every target that the detector reports has its corners at those of a box with an inside that
    -- lies in the frame, whatever the network and the suppression of boxes answer; over a
    -- conversion that refuses a negative number of rows and else gives an image of the size that
    -- OpenCV says.
    pub detect-IsInside :
        (started finished detected_at : ℕ) (network : Net) (frame : CameraFrame)
        → IfReturns
            (λ b. All (IsInside frame.width frame.height) b.targets)
            (detect boxes cv config started finished detected_at network frame)
    unfolding detect detect_targets
    detect-IsInside started finished detected_at network frame =
        >>=-IfReturns (All (IsInside frame.width frame.height))
          (λ b. All (IsInside frame.width frame.height) b.targets)
          (detect_targets boxes cv config network frame) _
          (>>=-IfReturns (IsSized frame) (All (IsInside frame.width frame.height))
            (to_bgr boxes cv config frame) _ (to_bgr-IsSized frame)
            (λ bgr sized. after (letterbox boxes cv config bgr) _ (λ input.
              after (cv.forward_all network input.0) _ (λ outputs.
                after (single_output boxes cv config outputs) _ (λ tensor.
                  after (decode_yolox_output tensor.2 tensor.0 tensor.1 _) _ (λ candidates.
                    IsInside-same_size _ _ frame.width frame.height _ sized.0 sized.1 (
                      all_observations-IsInside (detected_class_ids candidates) candidates input.1 _
                        _)))))))
          (λ targets inside. inside)
      where
        after :
            {A : Type 0} (m : Outcome A) (f : A → Outcome (List (TargetObservation D)))
            → ((a : A) → IfReturns (All (IsInside frame.width frame.height)) (f a))
            → IfReturns (All (IsInside frame.width frame.height)) (m >>= f)
        after m f h =
            >>=-IfReturns (λ a. Unit {0}) (All (IsInside frame.width frame.height)) m f
              (any_result m) (λ a _. h a)
