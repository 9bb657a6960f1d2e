-- ===== src/Detection/Decoder.antt =====
-- YoloXOutputDecoder.cpp and its header. A `float` is of the type `F`; `output` is the tensor, row
-- after row. An index of a span past its end is undefined in C++, and is a fault of the model.
use onboard_autonomy.Base.{
  ℕ, zero, suc, ◌+◌, ◌-◌, ◌*◌, ◌/◌, ◌%◌, ◌^◌, Bool, true, false, not, ◌&&◌, ◌||◌, Option, none,
  some, List, [], ◌∷◌, ◌++◌, ltb, leb, ◌==◌, if◌then◌else◌, ℤ, pos, negsuc, length, get_elem?, take,
  drop, any, text, Floating, external, Outcome, returned, thrown, ◌>>=◌, ◌>>◌, refuse_if,
  is_negative, pos_part,
}
use onboard_autonomy.Camera.Ports.{u64_mod}

pub record YoloXCandidate (F : Type 0) : Type 0 where
  pub center_x : F
  pub center_y : F
  pub width : F
  pub height : F
  pub confidence : F
  pub class_id : ℤ

pub record YoloXDecoderConfig (F : Type 0) : Type 0 where
  pub class_count : ℕ
  pub input_size : ℕ
  pub strides : List ℕ
  pub accepted_class_ids : List ℤ
  pub confidence_threshold : F

pub record GridCell (F : Type 0) : Type 0 where
  pub x : F
  pub y : F
  pub stride : F

abbrev pub box_value_count : ℕ
box_value_count = 4

abbrev pub objectness_index : ℕ
objectness_index = 4

abbrev pub class_scores_offset : ℕ
class_scores_offset = 5

abbrev pub is_nil {ℓ} : {A : Type ℓ} → List A → Bool
is_nil [] = true
is_nil (a ∷ l) = false

-- An element of a span or of a vector.
abbrev pub in_bounds {ℓ} : {A : Type ℓ} → Option A → Outcome A
in_bounds none = thrown (external "index past the end")
in_bounds (some a) = returned a

abbrev pub int_eq : ℤ → ℤ → Bool
int_eq (pos m) (pos n) = m == n
int_eq (pos m) (negsuc n) = false
int_eq (negsuc m) (pos n) = false
int_eq (negsuc m) (negsuc n) = m == n

-- `static_cast<std::int32_t>` of a `std::size_t`.
abbrev pub to_int32 : ℕ → ℤ
to_int32 n =
    if ltb (n % 2 ^ 32) (2 ^ 31) then pos (n % 2 ^ 32) else negsuc (2 ^ 32 - 1 - n % 2 ^ 32)

unfoldable pub validate_strides : ℕ → List ℕ → Outcome (Unit {0})
validate_strides input_size [] = returned tt
validate_strides input_size (stride ∷ rest) = do
  refuse_if (stride == 0 || not (input_size % stride == 0))
      (text "YOLOX stride must divide the input size")
  validate_strides input_size rest

unfoldable pub validate_class_ids : ℕ → List ℤ → Outcome (Unit {0})
validate_class_ids class_count [] = returned tt
validate_class_ids class_count (class_id ∷ rest) = do
  refuse_if (is_negative class_id || leb class_count (pos_part class_id))
      (text "YOLOX class id is out of range")
  validate_class_ids class_count rest

module _ {F : Type 0} ⦃fp : Floating F⦄ where
  abbrev pub bad_config : YoloXDecoderConfig F → Bool
  bad_config c =
      c.class_count == 0
      || (c.input_size == 0
          || (is_nil c.strides
              || (not (fp.is_finite c.confidence_threshold)
                  || (fp.flt c.confidence_threshold (fp.of_int (pos 0))
                      || fp.flt (fp.of_int (pos 1)) c.confidence_threshold))))

  unfoldable pub validate_config : YoloXDecoderConfig F → Outcome (Unit {0})
  validate_config c = do
    refuse_if (bad_config c) (text "invalid YOLOX decoder configuration")
    validate_strides c.input_size c.strides
    validate_class_ids c.class_count c.accepted_class_ids

  abbrev pub cell_at : ℕ → ℕ → ℕ → GridCell F
  cell_at x y stride = record {
    x = fp.of_int (pos x);
    y = fp.of_int (pos y);
    stride = fp.of_int (pos stride);
  }

  -- The loop on x: so many cells more, from this one on.
  unfoldable pub row_cells : ℕ → ℕ → ℕ → ℕ → List (GridCell F)
  row_cells zero x y stride = []
  row_cells (suc n) x y stride = cell_at x y stride ∷ row_cells n (suc x) y stride

  -- The loop on y.
  unfoldable pub square_cells : ℕ → ℕ → ℕ → ℕ → List (GridCell F)
  square_cells zero y side stride = []
  square_cells (suc n) y side stride =
      row_cells side 0 y stride ++ square_cells n (suc y) side stride

  -- The loop on the strides.
  unfoldable pub grid_of : ℕ → List ℕ → List (GridCell F)
  grid_of input_size [] = []
  grid_of input_size (stride ∷ rest) =
      square_cells (input_size / stride) 0 (input_size / stride) stride ++ grid_of input_size rest

  unfoldable pub make_grid : YoloXDecoderConfig F → List (GridCell F)
  make_grid c = grid_of c.input_size c.strides

  unfoldable pub accepted_class : ℤ → YoloXDecoderConfig F → Bool
  accepted_class class_id c =
      is_nil c.accepted_class_ids || any (λ a. int_eq a class_id) c.accepted_class_ids

  -- The selection after a class with this score.
  abbrev pub select : ℤ → F → ℤ × F → ℤ × F
  select class_id score (selected_class, selected_score) =
      if◌then◌else◌ {A = ℤ × F} (fp.is_finite score && fp.flt selected_score score)
        (class_id, score) (selected_class, selected_score)

  unfoldable pub class_step : Bool → ℕ → List F → ℤ × F → Outcome (ℤ × F)
  class_step false class_index row selected = returned selected
  class_step true class_index row selected = do
    score ← in_bounds (get_elem? row (class_scores_offset + class_index))
    returned (select (to_int32 class_index) score selected)

  -- The loop of `highest_scoring_class`, with so many classes left.
  unfoldable pub scan_classes : ℕ → ℕ → List F → YoloXDecoderConfig F → ℤ × F → Outcome (ℤ × F)
  scan_classes zero class_index row c selected = returned selected
  scan_classes (suc n) class_index row c selected = do
    next ← class_step (accepted_class (to_int32 class_index) c) class_index row selected
    scan_classes n (suc class_index) row c next

  unfoldable pub highest_scoring_class : List F → YoloXDecoderConfig F → Outcome (ℤ × F)
  highest_scoring_class row c = scan_classes c.class_count 0 row c (negsuc 0, fp.of_int (pos 0))

  -- The test under which a row is passed over before its box is read.
  abbrev pub passed_over : ℤ → F → F → YoloXDecoderConfig F → Bool
  passed_over class_id objectness confidence c =
      is_negative class_id
      || (not (accepted_class class_id c)
          || (not (fp.is_finite objectness)
              || (not (fp.is_finite confidence) || fp.fle confidence c.confidence_threshold)))

  abbrev pub bad_box : F → F → F → F → Bool
  bad_box center_x center_y width height =
      not (fp.is_finite center_x)
      || (not (fp.is_finite center_y)
          || (not (fp.is_finite width)
              || (not (fp.is_finite height)
                  || (fp.fle width (fp.of_int (pos 0)) || fp.fle height (fp.of_int (pos 0))))))

  -- The candidate of a box, unless the box is bad.
  abbrev pub box_candidate : Bool → YoloXCandidate F → Option (YoloXCandidate F)
  box_candidate true candidate = none
  box_candidate false candidate = some candidate

  -- The second half of a round: the box of a row.
  unfoldable pub decode_box :
      Bool → List F → GridCell F → F → ℤ → Outcome (Option (YoloXCandidate F))
  decode_box true row cell confidence class_id = returned none
  decode_box false row cell confidence class_id = do
    r0 ← in_bounds (get_elem? row 0)
    r1 ← in_bounds (get_elem? row 1)
    r2 ← in_bounds (get_elem? row 2)
    r3 ← in_bounds (get_elem? row 3)
    let center_x = fp.mul (fp.add r0 cell.x) cell.stride
    let center_y = fp.mul (fp.add r1 cell.y) cell.stride
    let width = fp.mul (fp.exponential r2) cell.stride
    let height = fp.mul (fp.exponential r3) cell.stride
    returned (
        box_candidate (bad_box center_x center_y width height) (record {
          center_x = center_x;
          center_y = center_y;
          width = width;
          height = height;
          confidence = confidence;
          class_id = class_id;
        }))

  -- A round of the loop on the rows.
  unfoldable pub decode_row :
      List F → GridCell F → YoloXDecoderConfig F → Outcome (Option (YoloXCandidate F))
  decode_row row cell c = do
    objectness ← in_bounds (get_elem? row objectness_index)
    (class_id, class_score) ← highest_scoring_class row c
    decode_box (passed_over class_id objectness (fp.mul objectness class_score) c) row cell
        (fp.mul objectness class_score) class_id

  abbrev pub push : Option (YoloXCandidate F) → List (YoloXCandidate F) → List (YoloXCandidate F)
  push none rest = rest
  push (some candidate) rest = candidate ∷ rest

  -- The loop on the rows, with so many left.
  unfoldable pub decode_rows :
      ℕ
      → ℕ
      → List F
      → ℕ
      → List (GridCell F)
      → YoloXDecoderConfig F
      → Outcome (List (YoloXCandidate F))
  decode_rows zero row_index output column_count grid c = returned []
  decode_rows (suc n) row_index output column_count grid c = do
    cell ← in_bounds (get_elem? grid row_index)
    candidate ← decode_row (take column_count (drop (row_index * column_count) output)) cell c
    rest ← decode_rows n (suc row_index) output column_count grid c
    returned (push candidate rest)

  -- Sums and products of `std::size_t` wrap.
  abbrev pub bad_shape : ℕ → ℕ → ℕ → YoloXDecoderConfig F → Bool
  bad_shape size row_count column_count c =
      not (row_count == length (make_grid c))
      || (not (column_count == (class_scores_offset + c.class_count) % u64_mod)
          || not (size == row_count * column_count % u64_mod))

  unfoldable pub decode_yolox_output :
      List F → ℕ → ℕ → YoloXDecoderConfig F → Outcome (List (YoloXCandidate F))
  decode_yolox_output output row_count column_count c = do
    validate_config c
    refuse_if (bad_shape (length output) row_count column_count c)
        (text "unexpected YOLOX output shape")
    decode_rows row_count 0 output column_count (make_grid c) c
