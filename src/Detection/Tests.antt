-- ===== src/Detection/Tests.antt =====
-- The decoder on a network input of two pixels by two, with a stride of one and of two.
use onboard_autonomy.Base.{
  ◌+◌, ◌*◌, ◌/◌, ◌≡◌, refl, Bool, true, false, some, List, [], ◌∷◌, length, get_elem?, arith, ltb,
  ℤ, pos, pos_part, neg_part, Outcome, returned, thrown, runtime_error, Returns, IfReturns, ℕ, zero,
  suc, sub_ℕ, text, none, All,
}
use onboard_autonomy.Fixtures.{sample_doubles}
use onboard_autonomy.Detection.Decoder.{
  YoloXDecoderConfig, YoloXCandidate, cell_at, make_grid, class_scores_offset,
  highest_scoring_class, decode_yolox_output,
}
use onboard_autonomy.Detection.Letterbox.{
  StrictOrder, IsSmaller, scale_to, resized, make_yolox_letterbox_geometry,
  make_yolox_letterbox_geometry-IsSmaller,
}
use onboard_autonomy.Detection.Grid.{cell_count, length-make_grid, get_elem?-make_grid}
use onboard_autonomy.Detection.Highest.{IsHighest, highest_scoring_class-IsHighest}
use onboard_autonomy.Detection.Decodable.{IsConfig, IsShape, IsWrappedShape}
use onboard_autonomy.Detection.Decoded.{
  AreCandidates, decode_yolox_output-AreCandidates, decode_yolox_output-IsWrappedShape,
}
use onboard_autonomy.Camera.Ports.{CameraFrame}
use onboard_autonomy.Detection.Detector.{
  OpenCvDnnDetectorConfig, Rect, OpenCv, ConvertsSizes, BoxArithmetic, class_boxes,
  retained_observations, detect,
}
use onboard_autonomy.Detection.Within.{IsInside, detect-IsInside}
use onboard_autonomy.Detection

abbrev sample_lt : ℤ → ℤ → Bool
sample_lt a b = ltb (pos_part a + neg_part b) (pos_part b + neg_part a)

sample_irreflexive : (a : ℤ) → sample_lt a a ≡ false
sample_irreflexive a = ground arith

sample_transitive : (a b c : ℤ) → sample_lt a b ≡ true → sample_lt b c ≡ true → sample_lt a c ≡ true
sample_transitive a b c h k = ground arith

sample_order : StrictOrder ℤ sample_doubles
sample_order = record { lt_irreflexive = sample_irreflexive; lt_transitive = sample_transitive }

abbrev small_config : YoloXDecoderConfig ℤ
small_config = record {
  class_count = 2;
  input_size = 2;
  strides = 1 ∷ 2 ∷ [];
  accepted_class_ids = pos 1 ∷ [];
  confidence_threshold = pos 200;
}

small_config-IsConfig : IsConfig small_config
small_config-IsConfig = record {
  some_class = omega arith;
  some_input = omega arith;
  some_stride = λ e. cc;
  threshold_finite = refl;
  threshold_from_zero = refl;
  threshold_to_one = refl;
  strides_divide = ((omega arith, refl), ((omega arith, refl), tt));
  ids_within = (omega arith, tt);
}

-- A row with no score, and one with a box at (1, 1) and the scores 0.9 and 0.5.
abbrev blank : List ℤ → List ℤ
blank rest = pos 0 ∷ pos 0 ∷ pos 0 ∷ pos 0 ∷ pos 0 ∷ pos 0 ∷ pos 0 ∷ rest

abbrev scored_row : List ℤ
scored_row = pos 1000 ∷ pos 1000 ∷ pos 0 ∷ pos 0 ∷ pos 1000 ∷ pos 900 ∷ pos 500 ∷ []

abbrev small_output : List ℤ
small_output = blank (blank (blank (blank scored_row)))

small_output-IsShape : IsShape small_config (length small_output) 5 7
unfolding Detection.Grid.cell_count
small_output-IsShape = record {
  rows = refl;
  columns = refl;
  cells = refl;
  columns_fit = omega arith;
  size_fits = omega arith;
}

decode_run :
    decode_yolox_output small_output 5 7 small_config
    ≡ returned (
        record {
          center_x = pos 2000;
          center_y = pos 2000;
          width = pos 2000;
          height = pos 2000;
          confidence = pos 500;
          class_id = pos 1;
        }
        ∷ [])
unfolding Detection.Decoder.decode_yolox_output Detection.Decoder.validate_config
    Detection.Decoder.validate_strides Detection.Decoder.validate_class_ids
    Detection.Decoder.make_grid Detection.Decoder.grid_of Detection.Decoder.square_cells
    Detection.Decoder.row_cells Detection.Decoder.decode_rows Detection.Decoder.decode_row
    Detection.Decoder.decode_box Detection.Decoder.highest_scoring_class
    Detection.Decoder.scan_classes Detection.Decoder.class_step Detection.Decoder.accepted_class
decode_run = refl

length-make_grid_example : length (make_grid small_config) ≡ cell_count 2 (1 ∷ 2 ∷ [])
length-make_grid_example = length-make_grid ℤ small_config

get_elem?-make_grid_example :
    get_elem? (make_grid small_config) (cell_count 2 [] + (1 * (2 / 1) + 0)) ≡ some (cell_at 0 1 1)
get_elem?-make_grid_example =
    get_elem?-make_grid ℤ small_config [] 1 (2 ∷ []) 1 0 refl (omega arith) (omega arith)

highest_scoring_class-IsHighest_example :
    Returns (IsHighest small_config scored_row 2) (highest_scoring_class scored_row small_config)
highest_scoring_class-IsHighest_example =
    highest_scoring_class-IsHighest sample_order small_config scored_row (omega arith)

decode_yolox_output-AreCandidates_example :
    Returns (AreCandidates small_config 5) (decode_yolox_output small_output 5 7 small_config)
decode_yolox_output-AreCandidates_example =
    decode_yolox_output-AreCandidates small_output 5 7 small_config sample_order
      small_config-IsConfig small_output-IsShape

decode_yolox_output-IsWrappedShape_example :
    IfReturns
      (λ candidates. IsConfig small_config × IsWrappedShape small_config (length small_output) 5 7)
      (decode_yolox_output small_output 5 7 small_config)
decode_yolox_output-IsWrappedShape_example =
    decode_yolox_output-IsWrappedShape small_output 5 7 small_config

make_yolox_letterbox_geometry-IsSmaller_example :
    Returns
      (λ g.
        IsSmaller (scale_to {F = ℤ} 640 1280) (scale_to 640 720) g.scale
        × ((g.resized_width ≡ resized 1280 g.scale) × (g.resized_height ≡ resized 720 g.scale)))
      (make_yolox_letterbox_geometry {F = ℤ} 1280 720 640)
make_yolox_letterbox_geometry-IsSmaller_example =
    make_yolox_letterbox_geometry-IsSmaller sample_order 1280 720 640 (omega arith) (omega arith)
      (omega arith)

-- Boxes in thousandths, and OpenCV over images that are no more than their sizes.
abbrev sample_boxes : BoxArithmetic ℤ ℤ
sample_boxes = record {
  sub = λ a b. sub_ℕ (pos_part a + neg_part b) (pos_part b + neg_part a);
  floor_int = λ a. pos (pos_part a / 1000);
  ceil_int = λ a. pos ((pos_part a + 999) / 1000);
  to_double = λ a. a;
}

abbrev first_index : List Rect → List ℕ
first_index [] = []
first_index (box ∷ rest) = 0 ∷ []

-- A tensor in which no class has a score.
abbrev zeros : ℕ → List ℤ
zeros zero = []
zeros (suc n) = pos 0 ∷ zeros n

abbrev sample_bgr : ℤ → ℤ → Outcome (ℕ × ℕ)
sample_bgr (pos rows) (pos columns) = returned (rows * 2 / 3, columns)
sample_bgr rows columns = thrown (runtime_error (text "negative size"))

abbrev sample_cv : OpenCv (ℕ × ℕ) (Unit {0}) ℤ
sample_cv = record {
  bgr_of = λ rows columns bytes. sample_bgr rows columns;
  columns = λ m. m.1;
  rows = λ m. m.0;
  resize_onto = λ side padding m width height. (side, side);
  forward_all = λ network m.
      returned
        (record { sizes = 1 ∷ 8400 ∷ 85 ∷ []; is_continuous = true; values = zeros 714_000 } ∷ []);
  nms_boxes = λ boxes scores confidence overlap. first_index boxes;
}

sample_cv-sizes : ConvertsSizes sample_cv
sample_cv-sizes = record {
  same_columns = λ rows columns bytes. refl;
  fewer_rows = λ rows columns bytes. refl;
  refused_rows = λ rows columns bytes. tt;
}

abbrev detector_config : OpenCvDnnDetectorConfig ℤ
detector_config = record {
  model_file = text "yolox.onnx";
  accepted_class_ids = [];
  confidence_threshold = pos 200;
  nms_threshold = pos 500;
}

abbrev small_frame : CameraFrame
small_frame = record {
  sequence = 1;
  width = 2;
  height = 2;
  yuv420 = 0 ∷ 0 ∷ 0 ∷ 0 ∷ 0 ∷ 0 ∷ [];
  captured_at = none;
  received_at = 0;
}

abbrev left_candidate : YoloXCandidate ℤ
left_candidate = record {
  center_x = pos 5000;
  center_y = pos 50_000;
  width = pos 30_000;
  height = pos 20_000;
  confidence = pos 900;
  class_id = pos 4;
}

-- The boxes of a class in a frame of 640 by 480: one that is clipped on the left, and its corners.
clipped_run :
    retained_observations {D = ℤ} sample_boxes
      (class_boxes {D = ℤ} sample_boxes (pos 4) (pos 1000) 640 480 (left_candidate ∷ []))
      (0 ∷ [])
    ≡ returned (
        record {
          id = pos 4;
          family = text "airplane";
          center = record { x_px = pos 10_000; y_px = pos 50_000 };
          corners =
              record { x_px = pos 0; y_px = pos 40_000 }
              ∷ record { x_px = pos 20_000; y_px = pos 40_000 }
              ∷ record { x_px = pos 20_000; y_px = pos 60_000 }
              ∷ record { x_px = pos 0; y_px = pos 60_000 }
              ∷ [];
          confidence_percent = pos 90_000;
        }
        ∷ [])
unfolding Detection.Detector.retained_observations Detection.Detector.class_boxes
    Detection.Detector.candidate_box Detection.Detector.make_observation
    Detection.Detector.class_name
clipped_run = refl

detect-IsInside_example :
    IfReturns
      (λ b. All (IsInside {F = ℤ} sample_boxes 2 2) b.targets)
      (detect sample_boxes sample_cv detector_config 10 20 30 tt small_frame)
detect-IsInside_example =
    detect-IsInside sample_boxes sample_cv sample_cv-sizes detector_config 10 20 30 tt small_frame
