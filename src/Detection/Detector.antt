-- ===== src/Detection/Detector.antt =====
-- OpenCvDnnTargetDetector.cpp, as it is built with OpenCV. The library's images, network and
-- suppression of overlapping boxes are parameters.
use onboard_autonomy.Base.{
  ℕ, ◌+◌, ◌-◌, ◌≡◌, ◌*◌, ◌/◌, ◌%◌, ltb, ◌==◌, Bool, true, false, not, ◌&&◌, ◌||◌, List, [], ◌∷◌,
  ◌++◌, Text, text, is_empty, length, get_elem?, if◌then◌else◌, ℤ, pos, negsuc, Floating,
  runtime_error, Outcome, returned, thrown, ◌>>=◌, ◌>>◌, refuse_if, checked, IfReturns,
}
use onboard_autonomy.Camera.Ports.{CameraFrame, ImagePoint, TargetObservation, DetectionBatch}
use onboard_autonomy.Detection.Decoder.{
  YoloXDecoderConfig, YoloXCandidate, int_eq, to_int32, decode_yolox_output,
}
use onboard_autonomy.Detection.Letterbox.{make_yolox_letterbox_geometry}

pub record OpenCvDnnDetectorConfig (F : Type 0) : Type 0 where
  pub model_file : Text
  pub accepted_class_ids : List ℤ
  pub confidence_threshold : F
  pub nms_threshold : F

-- `cv::Rect`, with the sizes that the program gives it, which are not negative.
pub record Rect : Type 0 where
  pub x : ℕ
  pub y : ℕ
  pub width : ℕ
  pub height : ℕ

-- An output of the network: its sizes, whether it is continuous, and its values.
pub record Tensor (F : Type 0) : Type 0 where
  pub sizes : List ℕ
  pub is_continuous : Bool
  pub values : List F

pub record OpenCv (Mat Net F : Type 0) : Type 0 where
  -- a matrix of rows and columns with these bytes, converted from YUV I420 to BGR; it may throw
  pub bgr_of : ℤ → ℤ → List ℕ → Outcome Mat
  pub columns : Mat → ℕ
  pub rows : Mat → ℕ
  -- `resize` to a width and a height, onto a square of this side filled with this value
  pub resize_onto : ℕ → ℕ → Mat → ℕ → ℕ → Mat
  -- `blobFromImage`, `setInput` and `forward`, which may throw
  pub forward_all : Net → Mat → Outcome (List (Tensor F))
  -- `NMSBoxes`: the indices of the boxes that are retained
  pub nms_boxes : List Rect → List F → F → F → List ℕ

-- What `readNetFromONNX` makes of a file: a network, an empty one, or an exception with this text.
pub data NetworkFile (Net : Type 0) : Type 0 where
  readable : Net → NetworkFile Net
  empty_network : NetworkFile Net
  unreadable : Text → NetworkFile Net

-- What OpenCV says of the size of an image that is converted from YUV I420: it has the columns, and
-- two thirds of the rows; a matrix of a negative number of rows is refused.
pub record ConvertsSizes {Mat Net F : Type 0} (cv : OpenCv Mat Net F) : Type 0 where
  pub same_columns :
      (rows columns : ℕ) (bytes : List ℕ)
      → IfReturns (λ m. cv.columns m ≡ columns) (cv.bgr_of (pos rows) (pos columns) bytes)
  pub fewer_rows :
      (rows columns : ℕ) (bytes : List ℕ)
      → IfReturns (λ m. cv.rows m ≡ rows * 2 / 3) (cv.bgr_of (pos rows) (pos columns) bytes)
  pub refused_rows :
      (rows : ℕ) (columns : ℤ) (bytes : List ℕ)
      → IfReturns (λ m. ⊥) (cv.bgr_of (negsuc rows) columns bytes)

-- What the boxes need of `float` beside `Floating F`: subtraction, `static_cast<int>` of `std::floor`
-- and of `std::ceil`, and the conversion to `double`.
pub record BoxArithmetic (F D : Type 0) : Type 0 where
  pub sub : F → F → F
  pub floor_int : F → ℤ
  pub ceil_int : F → ℤ
  pub to_double : F → D

abbrev pub int_max : ℕ
int_max = 2_147_483_647

unfoldable pub class_name : ℤ → Text
class_name class_id =
    if int_eq class_id (pos 4)
    then text "airplane"
    else if int_eq class_id (pos 14)
    then text "bird"
    else if int_eq class_id (pos 33)
    then text "kite"
    else text "aerial-object"

abbrev pub bad_dimensions : ℕ → ℕ → Bool
bad_dimensions width height =
    width == 0
    || (height == 0
        || (not (width % 2 == 0)
            || (not (height % 2 == 0) || (ltb int_max width || ltb int_max height))))

unfoldable pub expected_yuv420_size : ℕ → ℕ → Outcome ℕ
expected_yuv420_size width height = do
  refuse_if (bad_dimensions width height) (text "invalid YUV420 frame dimensions")
  returned (width * height + width * height / 2)

-- `std::clamp` to a range from zero.
abbrev pub clamp : ℤ → ℕ → ℕ
clamp (negsuc n) top = 0
clamp (pos n) top = if ltb top n then top else n

-- The box from its sides; `-` on ℕ is `std::max(0, …)` of the difference.
abbrev pub clipped : ℤ → ℤ → ℤ → ℤ → ℕ → ℕ → Rect
clipped left top right bottom width height = record {
  x = clamp left width;
  y = clamp top height;
  width = clamp right width - clamp left width;
  height = clamp bottom height - clamp top height;
}

-- `cv::Rect::empty`
abbrev pub is_empty_box : Rect → Bool
is_empty_box box = box.width == 0 || box.height == 0

abbrev pub int_ltb : ℤ → ℤ → Bool
int_ltb (pos m) (pos n) = ltb m n
int_ltb (pos m) (negsuc n) = false
int_ltb (negsuc m) (pos n) = true
int_ltb (negsuc m) (negsuc n) = ltb n m

-- A step of the sort without repetition.
unfoldable pub insert_id : ℤ → List ℤ → List ℤ
insert_id id [] = id ∷ []
insert_id id (other ∷ rest) =
    let later = other ∷ insert_id id rest in
    if int_eq id other then other ∷ rest else if int_ltb id other then id ∷ other ∷ rest else later

unfoldable pub detected_class_ids : {F : Type 0} → List (YoloXCandidate F) → List ℤ
detected_class_ids [] = []
detected_class_ids (candidate ∷ rest) = insert_id candidate.class_id (detected_class_ids rest)

module _ {F D : Type 0} ⦃fp : Floating F⦄ ⦃fd : Floating D⦄ (boxes : BoxArithmetic F D) where
  unfoldable pub validate_detector_config : OpenCvDnnDetectorConfig F → Outcome (Unit {0})
  validate_detector_config c =
      refuse_if
        (is_empty c.model_file
          || (not (fp.is_finite c.confidence_threshold)
              || (fp.fle c.confidence_threshold (fp.of_int (pos 0))
                  || (fp.flt (fp.of_int (pos 1)) c.confidence_threshold
                      || (not (fp.is_finite c.nms_threshold)
                          || (fp.fle c.nms_threshold (fp.of_int (pos 0))
                              || fp.flt (fp.of_int (pos 1)) c.nms_threshold))))))
        (text "invalid OpenCV DNN detector configuration")

  abbrev pub half : F → F
  half x = fp.div x (fp.of_int (pos 2))

  unfoldable pub candidate_box : YoloXCandidate F → F → ℕ → ℕ → Rect
  candidate_box candidate scale width height =
      clipped (boxes.floor_int (fp.div (boxes.sub candidate.center_x (half candidate.width)) scale))
        (boxes.floor_int (fp.div (boxes.sub candidate.center_y (half candidate.height)) scale))
        (boxes.ceil_int (fp.div (fp.add candidate.center_x (half candidate.width)) scale))
        (boxes.ceil_int (fp.div (fp.add candidate.center_y (half candidate.height)) scale)) width
        height

  abbrev pub point : ℕ → ℕ → ImagePoint D
  point x y = record { x_px = fd.of_int (pos x); y_px = fd.of_int (pos y) }

  abbrev pub middle : ℕ → ℕ → D
  middle a b = fd.div (fd.add (fd.of_int (pos a)) (fd.of_int (pos b))) (fd.of_int (pos 2))

  unfoldable pub make_observation : Rect → YoloXCandidate F → TargetObservation D
  make_observation box candidate =
      let right = box.x + box.width in
      let bottom = box.y + box.height in
      record {
        id = candidate.class_id;
        family = class_name candidate.class_id;
        center = record { x_px = middle box.x right; y_px = middle box.y bottom };
        corners =
            point box.x box.y ∷ point right box.y ∷ point right bottom ∷ point box.x bottom ∷ [];
        confidence_percent = fd.mul (boxes.to_double candidate.confidence) (fd.of_int (pos 100));
      }

  -- The boxes of a class that are not empty, each with its candidate.
  unfoldable pub class_boxes :
      ℤ → F → ℕ → ℕ → List (YoloXCandidate F) → List (Rect × YoloXCandidate F)
  class_boxes class_id scale width height [] = []
  class_boxes class_id scale width height (candidate ∷ rest) =
      let later = class_boxes class_id scale width height rest in
      let box = candidate_box candidate scale width height in
      if not (int_eq candidate.class_id class_id) || is_empty_box box
      then later
      else (box, candidate) ∷ later

  unfoldable pub retained_observations :
      List (Rect × YoloXCandidate F) → List ℕ → Outcome (List (TargetObservation D))
  retained_observations selected [] = returned []
  retained_observations selected (index ∷ indices) = do
    chosen ← checked (get_elem? selected index)
    rest ← retained_observations selected indices
    returned (make_observation chosen.0 chosen.1 ∷ rest)

  abbrev pub rects : List (Rect × YoloXCandidate F) → List Rect
  rects [] = []
  rects (s ∷ selected) = s.0 ∷ rects selected

  abbrev pub scores : List (Rect × YoloXCandidate F) → List F
  scores [] = []
  scores (s ∷ selected) = s.1.confidence ∷ scores selected

  module _ {Mat Net : Type 0} (cv : OpenCv Mat Net F) (config : OpenCvDnnDetectorConfig F) where
    abbrev pub observations_of :
        List (YoloXCandidate F) → F → ℕ → ℕ → ℤ → Outcome (List (TargetObservation D))
    observations_of candidates scale width height class_id =
        let selected = class_boxes class_id scale width height candidates in
        retained_observations selected (
          cv.nms_boxes (rects selected) (scores selected) config.confidence_threshold
            config.nms_threshold)

    -- The loop on the classes.
    unfoldable pub all_observations :
        List ℤ → List (YoloXCandidate F) → F → ℕ → ℕ → Outcome (List (TargetObservation D))
    all_observations [] candidates scale width height = returned []
    all_observations (class_id ∷ ids) candidates scale width height = do
      first ← observations_of candidates scale width height class_id
      rest ← all_observations ids candidates scale width height
      returned (first ++ rest)

    -- The rows are a sum of `std::uint32_t`, which wraps; both sizes are cast to `int`.
    unfoldable pub to_bgr : CameraFrame → Outcome Mat
    to_bgr frame = do
      size ← expected_yuv420_size frame.width frame.height
      refuse_if (not (length frame.yuv420 == size)) (text "unexpected YUV420 frame size")
      cv.bgr_of (to_int32 (frame.height + frame.height / 2)) (to_int32 frame.width) frame.yuv420

    unfoldable pub letterbox : Mat → Outcome (Mat × F)
    letterbox source = do
      geometry ← make_yolox_letterbox_geometry (cv.columns source) (cv.rows source) 640
      returned (
        cv.resize_onto 640 114 source geometry.resized_width geometry.resized_height,
        geometry.scale,
      )

    abbrev pub decoder_config : F → YoloXDecoderConfig F
    decoder_config threshold = record {
      class_count = 80;
      input_size = 640;
      strides = 8 ∷ 16 ∷ 32 ∷ [];
      accepted_class_ids = config.accepted_class_ids;
      confidence_threshold = threshold;
    }

    -- One batch of rows and columns.
    abbrev pub batch_of : List ℕ → Bool → List F → Outcome (ℕ × ℕ × List F)
    batch_of (batches ∷ row_count ∷ column_count ∷ []) continuous values =
        if◌then◌else◌ {A = Outcome (ℕ × ℕ × List F)} (batches == 1 && continuous)
          (returned (row_count, column_count, values))
          (thrown (runtime_error (text "unexpected YOLOX network output")))
    batch_of sizes continuous values =
        thrown (runtime_error (text "unexpected YOLOX network output"))

    -- The single output of the network.
    unfoldable pub single_output : List (Tensor F) → Outcome (ℕ × ℕ × List F)
    single_output (output ∷ []) = batch_of output.sizes output.is_continuous output.values
    single_output outputs = thrown (runtime_error (text "unexpected YOLOX network output"))

    -- `detect`: the targets of its batch.
    unfoldable pub detect_targets : Net → CameraFrame → Outcome (List (TargetObservation D))
    detect_targets network frame = do
      bgr ← to_bgr frame
      (input, scale) ← letterbox bgr
      outputs ← cv.forward_all network input
      (row_count, column_count, values) ← single_output outputs
      candidates ←
          decode_yolox_output values row_count column_count
            (decoder_config config.confidence_threshold)
      all_observations (detected_class_ids candidates) candidates scale (cv.columns bgr)
          (cv.rows bgr)

    -- `detect` at the times of its start and its end, in microseconds, and of the system clock.
    unfoldable pub detect : ℕ → ℕ → ℕ → Net → CameraFrame → Outcome (DetectionBatch D)
    detect started finished detected_at network frame = do
      targets ← detect_targets network frame
      returned (record {
        frame_sequence = frame.sequence;
        captured_at = frame.captured_at;
        detected_at = detected_at;
        processing_time = pos (finished - started);
        targets = targets;
      })

    abbrev pub loaded : NetworkFile Net → Outcome Net
    loaded (readable net) = returned net
    loaded empty_network = thrown (runtime_error (text "unable to load YOLOX ONNX model"))
    loaded (unreadable message) =
        thrown (runtime_error (text "unable to load YOLOX ONNX model: " ++ message))

    -- The constructor, with what the file holds and what the choice of the backend makes of it.
    unfoldable pub make_detector : (Text → NetworkFile Net) → (Net → Net) → Outcome Net
    make_detector read_network prefer = do
      validate_detector_config config
      net ← loaded (read_network config.model_file)
      returned (prefer net)

    -- `description`, with the name of the file without its folders.
    unfoldable pub description : (Text → Text) → Text
    description filename = text "OpenCV DNN YOLOX (" ++ (filename config.model_file ++ text ")")
