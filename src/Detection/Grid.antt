-- ===== src/Detection/Grid.antt =====
-- The grid of anchor cells against its description: a square of cells for each stride, row after row.
use onboard_autonomy.Base.{
  ℕ, zero, suc, ◌+◌, ◌*◌, ◌/◌, ◌<◌, ◌≡◌, refl, sym, ap, ◌∙◌, some, List, [], ◌∷◌, ◌++◌, length,
  get_elem?, arith, Floating, length-append, get_elem?-append_left, get_elem?-append_right,
}
use onboard_autonomy.Detection.Decoder.{
  YoloXDecoderConfig, cell_at, row_cells, square_cells, grid_of, make_grid,
}

-- The number of cells for these strides.
unfoldable pub cell_count : ℕ → List ℕ → ℕ
cell_count input_size [] = 0
cell_count input_size (stride ∷ rest) =
    (input_size / stride) * (input_size / stride) + cell_count input_size rest

sum_eq : {a b c d : ℕ} → a ≡ b → c ≡ d → a + c ≡ b + d
sum_eq h k = omega arith

shift : {a b : ℕ} (c : ℕ) → a ≡ b → a + c ≡ b + c
shift c h = omega arith

zero_left : (n : ℕ) → 0 + n ≡ n
zero_left n = omega arith

zero_row : (side x : ℕ) → 0 * side + x ≡ x
zero_row side x = omega arith

next_row : (side row x : ℕ) → suc row * side + x ≡ side + (row * side + x)
next_row side row x = omega arith

module _ (F : Type 0) ⦃fp : Floating F⦄ where
  length-row_cells : (n x y stride : ℕ) → length (row_cells {F = F} n x y stride) ≡ n
  unfolding row_cells
  length-row_cells zero x y stride = refl
  length-row_cells (suc n) x y stride = ap suc (length-row_cells n (suc x) y stride)

  length-square_cells :
      (n y side stride : ℕ) → length (square_cells {F = F} n y side stride) ≡ n * side
  unfolding square_cells
  length-square_cells zero y side stride = omega arith
  length-square_cells (suc n) y side stride =
      length-append (row_cells {F = F} side 0 y stride) (square_cells n (suc y) side stride)
      ∙ sum_eq (length-row_cells side 0 y stride) (length-square_cells n (suc y) side stride)
      ∙ omega arith

  pub length-grid_of :
      (input_size : ℕ) (strides : List ℕ)
      → length (grid_of {F = F} input_size strides) ≡ cell_count input_size strides
  unfolding grid_of cell_count
  length-grid_of input_size [] = refl
  length-grid_of input_size (stride ∷ rest) =
      length-append (square_cells {F = F} (input_size / stride) 0 (input_size / stride) stride)
        (grid_of input_size rest)
      ∙ sum_eq (length-square_cells (input_size / stride) 0 (input_size / stride) stride)
          (length-grid_of input_size rest)

  cell_at-eq :
      (x x' y y' stride : ℕ)
      → x ≡ x'
      → y ≡ y'
      → some (cell_at {F = F} x y stride) ≡ some (cell_at x' y' stride)
  cell_at-eq x x' y y' stride h k =
      ap (λ v. some (cell_at v y stride)) h ∙ ap (λ v. some (cell_at x' v stride)) k

  get_elem?-row_cells :
      (n x y stride i : ℕ)
      → i < n
      → get_elem? (row_cells n x y stride) i ≡ some (cell_at {F = F} (x + i) y stride)
  unfolding row_cells
  get_elem?-row_cells zero x y stride i h = elim h [ ]
  get_elem?-row_cells (suc n) x y stride zero h = cell_at-eq x (x + 0) y y stride (omega arith) refl
  get_elem?-row_cells (suc n) x y stride (suc i) h =
      get_elem?-row_cells n (suc x) y stride i (omega arith)
      ∙ cell_at-eq (suc x + i) (x + suc i) y y stride (omega arith) refl

  get_elem?-square_cells :
      (n y side stride row x : ℕ)
      → row < n
      → x < side
      → get_elem? (square_cells n y side stride) (row * side + x)
        ≡ some (cell_at {F = F} x (y + row) stride)
  unfolding square_cells
  get_elem?-square_cells zero y side stride row x h k = elim h [ ]
  get_elem?-square_cells (suc n) y side stride zero x h k =
      ap (get_elem? _) (zero_row side x)
      ∙ get_elem?-append_left (row_cells side 0 y stride) (square_cells n (suc y) side stride) x _
          (get_elem?-row_cells side 0 y stride x k)
      ∙ cell_at-eq (0 + x) x y (y + 0) stride (omega arith) (omega arith)
  get_elem?-square_cells (suc n) y side stride (suc row) x h k =
      ap (get_elem? _)
        (next_row side row x ∙ shift (row * side + x) (sym (length-row_cells side 0 y stride)))
      ∙ get_elem?-append_right (row_cells side 0 y stride) (square_cells n (suc y) side stride)
          (row * side + x)
      ∙ get_elem?-square_cells n (suc y) side stride row x (omega arith) k
      ∙ cell_at-eq x x (suc y + row) (y + suc row) stride refl (omega arith)

  get_elem?-grid_of :
      (input_size : ℕ) (front : List ℕ) (stride : ℕ) (back : List ℕ) (y x : ℕ)
      → y < input_size / stride
      → x < input_size / stride
      → get_elem?
          (grid_of input_size (front ++ (stride ∷ back)))
          (cell_count input_size front + (y * (input_size / stride) + x))
        ≡ some (cell_at {F = F} x y stride)
  unfolding grid_of cell_count
  get_elem?-grid_of input_size [] stride back y x h k =
      ap (get_elem? _) (zero_left (y * (input_size / stride) + x))
      ∙ get_elem?-append_left (square_cells (input_size / stride) 0 (input_size / stride) stride)
          (grid_of input_size back) (y * (input_size / stride) + x) _
          (get_elem?-square_cells (input_size / stride) 0 (input_size / stride) stride y x h k)
      ∙ cell_at-eq x x (0 + y) y stride refl (omega arith)
  get_elem?-grid_of input_size (s ∷ front) stride back y x h k =
      ap (get_elem? _) (
        assoc (input_size / s * (input_size / s)) (cell_count input_size front)
          (y * (input_size / stride) + x)
        ∙ shift _ (sym (length-square_cells (input_size / s) 0 (input_size / s) s)))
      ∙ get_elem?-append_right (square_cells (input_size / s) 0 (input_size / s) s) _ _
      ∙ get_elem?-grid_of input_size front stride back y x h k
    where
      assoc : (a b c : ℕ) → (a + b) + c ≡ a + (b + c)
      assoc a b c = omega arith

  -- The grid has a square of (input size / stride)² cells for each stride, one square after another.
  pub length-make_grid :
      (c : YoloXDecoderConfig F) → length (make_grid c) ≡ cell_count c.input_size c.strides
  unfolding make_grid
  length-make_grid c = length-grid_of c.input_size c.strides

  -- In the square of a stride, the cell of row y and column x stands at y · side + x after the cells
  -- of the strides before it, and holds x, y and the stride.
  pub get_elem?-make_grid :
      (c : YoloXDecoderConfig F) (front : List ℕ) (stride : ℕ) (back : List ℕ) (y x : ℕ)
      → c.strides ≡ front ++ (stride ∷ back)
      → y < c.input_size / stride
      → x < c.input_size / stride
      → get_elem? (make_grid c) (cell_count c.input_size front + (y * (c.input_size / stride) + x))
        ≡ some (cell_at x y stride)
  unfolding make_grid
  get_elem?-make_grid c front stride back y x e h k =
      ap
        (λ l.
          get_elem? (grid_of c.input_size l)
            (cell_count c.input_size front + (y * (c.input_size / stride) + x)))
        e
      ∙ get_elem?-grid_of c.input_size front stride back y x h k
