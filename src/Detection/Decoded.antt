-- ===== src/Detection/Decoded.antt =====
-- `decode_yolox_output`: what it takes and what it returns.
use onboard_autonomy.Base.{
  ℕ, zero, suc, ◌+◌, ◌-◌, ◌*◌, ◌%◌, ◌≤◌, ◌<◌, ◌≡◌, refl, sym, ◌∙◌, ap, ◌⊎◌, inl, inr, ◌↔◌, Bool,
  true, false, not, ◌==◌, Option, none, some, List, length, get_elem?, get_elem?-within, take, drop,
  length-take, length-drop, All, arith, ℤ, pos, negsuc, is_negative, text, Floating, Outcome,
  returned, thrown, ◌>>=◌, ◌>>◌, refuse_if, Returns, >>=-Returns, IfReturns, neither, none_of,
  double_negation, contrary,
}
use onboard_autonomy.Detection.Decoder.{
  YoloXDecoderConfig, YoloXCandidate, GridCell, to_int32, class_scores_offset, objectness_index,
  accepted_class, in_bounds, passed_over, bad_box, box_candidate, decode_box, decode_row, push,
  decode_rows, bad_shape, decode_yolox_output, make_grid, validate_config, highest_scoring_class,
}
use onboard_autonomy.Camera.Ports.{u64_mod}
use onboard_autonomy.Detection.Letterbox.{StrictOrder}
use onboard_autonomy.Detection.Grid.{length-make_grid}
use onboard_autonomy.Detection.Highest.{IsHighest, IsScored, highest_scoring_class-IsHighest}
use onboard_autonomy.Detection.Decodable.{
  IsConfig, IsShape, IsWrappedShape, IsShape-IsWrappedShape, validate_config-IsConfig,
}

-- An index within the bounds is read, and the code goes on.
read_then :
    {A B : Type 0} (l : List A) (i : ℕ) (Q : B → Type 0) (f : A → Outcome B)
    → i < length l
    → ((a : A) → Returns Q (f a))
    → Returns Q (in_bounds (get_elem? l i) >>= f)
read_then l i Q f h k = let (a, e) = get_elem?-within l i h in rw e (k a)

module _ {F : Type 0} ⦃fp : Floating F⦄ where
  -- A confident detection of an accepted class, with a finite box of positive size.
  pub record IsCandidate (c : YoloXDecoderConfig F) (k : YoloXCandidate F) : Type 0 where
    pub index : ℕ
    pub known : index < c.class_count
    pub named : k.class_id ≡ to_int32 index
    pub accepted : accepted_class (to_int32 index) c ≡ true
    pub confidence_finite : fp.is_finite k.confidence ≡ true
    pub confident : fp.fle k.confidence c.confidence_threshold ≡ false
    pub center_x_finite : fp.is_finite k.center_x ≡ true
    pub center_y_finite : fp.is_finite k.center_y ≡ true
    pub width_finite : fp.is_finite k.width ≡ true
    pub height_finite : fp.is_finite k.height ≡ true
    pub width_positive : fp.fle k.width (fp.of_int (pos 0)) ≡ false
    pub height_positive : fp.fle k.height (fp.of_int (pos 0)) ≡ false

  abbrev pub AllCandidate : YoloXDecoderConfig F → Option (YoloXCandidate F) → Type 0
  AllCandidate c none = Unit {0}
  AllCandidate c (some k) = IsCandidate c k

  module _ (c : YoloXDecoderConfig F) (row : List F)
      (scores : class_scores_offset + c.class_count ≤ length row) where
    box-IsCandidate :
        (selected : ℤ × F) (objectness confidence : F) (k : YoloXCandidate F)
        → IsHighest c row c.class_count selected
        → passed_over selected.0 objectness confidence c ≡ false
        → k.class_id ≡ selected.0
        → k.confidence ≡ confidence
        → AllCandidate c (box_candidate (bad_box k.center_x k.center_y k.width k.height) k)
    box-IsCandidate selected objectness confidence k highest passed id conf =
        by_box (bad_box k.center_x k.center_y k.width k.height) refl
      where
        by_box :
            (bad : Bool)
            → bad_box k.center_x k.center_y k.width k.height ≡ bad
            → AllCandidate c (box_candidate bad k)
        by_box true e = tt
        by_box false e =
            let (x, e1) = neither _ _ e in
            let (y, e2) = neither _ _ e1 in
            let (w, e3) = neither _ _ e2 in
            let (h, e4) = neither _ _ e3 in
            let (w0, h0) = neither _ _ e4 in
            let (named, p1) = neither _ _ passed in
            let (ok, p2) = neither _ _ p1 in
            let (objective, p3) = neither _ _ p2 in
            let (finite, high) = neither _ _ p3 in
            let s = scored named highest.origin in
            record {
              index = s.index;
              known = s.below;
              named = id ∙ s.named;
              accepted = s.accepted;
              confidence_finite =
                  ap fp.is_finite conf ∙ double_negation (fp.is_finite confidence) finite;
              confident = ap (λ v. fp.fle v c.confidence_threshold) conf ∙ high;
              center_x_finite = double_negation (fp.is_finite k.center_x) x;
              center_y_finite = double_negation (fp.is_finite k.center_y) y;
              width_finite = double_negation (fp.is_finite k.width) w;
              height_finite = double_negation (fp.is_finite k.height) h;
              width_positive = w0;
              height_positive = h0;
            }
          where
            scored :
                is_negative selected.0 ≡ false
                → (selected ≡ (negsuc 0, fp.of_int (pos 0))) ⊎ IsScored c row c.class_count selected
                → IsScored c row c.class_count selected
            scored named (inl none_found) =
                contrary (is_negative selected.0) (ap (λ s. is_negative s.0) none_found) named
            scored named (inr s) = s

    decode_box-IsCandidate :
        (over : Bool) (cell : GridCell F) (selected : ℤ × F) (objectness confidence : F)
        → passed_over selected.0 objectness confidence c ≡ over
        → IsHighest c row c.class_count selected
        → Returns (AllCandidate c) (decode_box over row cell confidence selected.0)
    unfolding decode_box
    decode_box-IsCandidate true cell selected objectness confidence e highest = tt
    decode_box-IsCandidate false cell selected objectness confidence e highest =
        read_then row 0 _ _ (omega arith) (λ r0. read_then row 1 _ _ (omega arith) (λ r1.
          read_then row 2 _ _ (omega arith) (λ r2.
            read_then row 3 _ _ (omega arith)
              (λ r3. box-IsCandidate selected objectness confidence _ highest e refl refl))))

    decode_row-IsCandidate :
        (order : StrictOrder F fp) (cell : GridCell F)
        → Returns (AllCandidate c) (decode_row row cell c)
    unfolding decode_row
    decode_row-IsCandidate order cell =
        read_then row objectness_index _ _ (omega arith) (λ objectness.
          >>=-Returns (IsHighest c row c.class_count) (AllCandidate c) (highest_scoring_class row c)
            _ (highest_scoring_class-IsHighest order c row scores)
            (λ selected highest.
              decode_box-IsCandidate
                (passed_over selected.0 objectness (fp.mul objectness selected.1) c) cell selected
                objectness (fp.mul objectness selected.1) refl highest))

  abbrev pub AreCandidates : YoloXDecoderConfig F → ℕ → List (YoloXCandidate F) → Type 0
  AreCandidates c n candidates = (length candidates ≤ n) × All (IsCandidate c) candidates

  push-AreCandidates :
      (c : YoloXDecoderConfig F) (n : ℕ) (candidate : Option (YoloXCandidate F))
      (rest : List (YoloXCandidate F))
      → AllCandidate c candidate
      → AreCandidates c n rest
      → AreCandidates c (suc n) (push candidate rest)
  push-AreCandidates c n none rest h (l, k) = (omega arith, k)
  push-AreCandidates c n (some candidate) rest h (l, k) = (omega arith, (h, k))

  module _ (order : StrictOrder F fp) (c : YoloXDecoderConfig F) (output : List F)
      (column_count : ℕ) (columns : column_count ≡ 5 + c.class_count)
      (grid : List (GridCell F)) where
    -- A row of the tensor has the box, the objectness and the class scores.
    row_scores :
        (n row_index : ℕ)
        → (suc n + row_index) * column_count ≤ length output
        → class_scores_offset + c.class_count
          ≤ length (take column_count (drop (row_index * column_count) output))
    row_scores n row_index cells = omega (
      arith,
      columns,
      length-take column_count (drop (row_index * column_count) output)
          (room (length-drop (row_index * column_count) output)),
    )
      where
        room :
            length (drop (row_index * column_count) output)
              ≡ length output - row_index * column_count
            → column_count ≤ length (drop (row_index * column_count) output)
        room e = omega arith

    decode_rows-AreCandidates :
        (n row_index : ℕ)
        → n + row_index ≤ length grid
        → (n + row_index) * column_count ≤ length output
        → Returns (AreCandidates c n) (decode_rows n row_index output column_count grid c)
    unfolding decode_rows
    decode_rows-AreCandidates zero row_index rows cells = (omega arith, tt)
    decode_rows-AreCandidates (suc n) row_index rows cells =
        read_then grid row_index _ _ (omega arith) (λ cell.
          >>=-Returns (AllCandidate c) (AreCandidates c (suc n)) _ _
            (decode_row-IsCandidate c (take column_count (drop (row_index * column_count) output))
              (row_scores n row_index cells) order cell)
            (λ candidate is_candidate.
              >>=-Returns (AreCandidates c n) (AreCandidates c (suc n)) _ _
                (decode_rows-AreCandidates n (suc row_index) (omega arith) (omega arith))
                (λ rest are. push-AreCandidates c n candidate rest is_candidate are)))

  bad_shape-IsWrappedShape :
      (size row_count column_count : ℕ) (c : YoloXDecoderConfig F)
      → (bad_shape size row_count column_count c ≡ false)
        ↔ IsWrappedShape c size row_count column_count
  bad_shape-IsWrappedShape size row_count column_count c = (sound, complete)
    where
      same : (m n : ℕ) → (not (m == n) ≡ false) ↔ (m ≡ n)
      same m n = ground arith

      sound :
          bad_shape size row_count column_count c ≡ false
          → IsWrappedShape c size row_count column_count
      sound e =
          let (rows, e1) = neither _ _ e in
          let (columns, cells) = neither _ _ e1 in
          record {
            rows = (same row_count (length (make_grid c))).0 rows ∙ length-make_grid F c;
            columns =
                (same column_count ((class_scores_offset + c.class_count) % u64_mod)).0 columns;
            cells = (same size (row_count * column_count % u64_mod)).0 cells;
          }

      complete :
          IsWrappedShape c size row_count column_count
          → bad_shape size row_count column_count c ≡ false
      complete k =
          none_of _ _
            ((same row_count (length (make_grid c))).1 (k.rows ∙ sym (length-make_grid F c)))
            (none_of _ _
              ((same column_count ((class_scores_offset + c.class_count) % u64_mod)).1 k.columns)
              ((same size (row_count * column_count % u64_mod)).1 k.cells))

  module _ (output : List F) (row_count column_count : ℕ) (c : YoloXDecoderConfig F) where
    -- On a valid configuration and a tensor of its shape, with sizes that `std::size_t` holds, over
    -- an irreflexive and transitive `<`, the decoder returns: it reads nothing out of bounds. It
    -- returns at most one candidate a row, each of an accepted class, with a finite confidence
    -- above the threshold and a finite box of positive width and height.
    pub decode_yolox_output-AreCandidates :
        StrictOrder F fp
        → IsConfig c
        → IsShape c (length output) row_count column_count
        → Returns (AreCandidates c row_count) (decode_yolox_output output row_count column_count c)
    unfolding decode_yolox_output
    decode_yolox_output-AreCandidates order config shape =
        rw
          (
            (validate_config-IsConfig c).1 config,
            (bad_shape-IsWrappedShape (length output) row_count column_count c).1
                (IsShape-IsWrappedShape c (length output) row_count column_count shape),
          )
          (decode_rows-AreCandidates order c output column_count shape.columns (make_grid c)
            row_count 0 (omega (arith, shape.rows, length-make_grid F c))
            (omega (arith, shape.cells)))

    -- If the decoder returns, the configuration is valid and the tensor has its shape: a row for each
    -- of the grid's cells, and a column for each class after the five of the box, where the number of
    -- columns and the size are compared modulo 2^64.
    pub decode_yolox_output-IsWrappedShape :
        IfReturns
          (λ candidates. IsConfig c × IsWrappedShape c (length output) row_count column_count)
          (decode_yolox_output output row_count column_count c)
    unfolding decode_yolox_output
    decode_yolox_output-IsWrappedShape = by_config (validate_config c) refl
      where
        by_shape :
            (bad : Bool)
            → bad_shape (length output) row_count column_count c ≡ bad
            → IsConfig c
            → (m : Outcome (List (YoloXCandidate F)))
            → IfReturns
                (λ candidates. IsConfig c × IsWrappedShape c (length output) row_count column_count)
                (refuse_if bad (text "unexpected YOLOX output shape") >> m)
        by_shape true e config m = tt
        by_shape false e config (thrown f) = tt
        by_shape false e config (returned candidates) =
            (config, (bad_shape-IsWrappedShape (length output) row_count column_count c).0 e)

        by_config :
            (m : Outcome (Unit {0}))
            → validate_config c ≡ m
            → IfReturns
                (λ candidates. IsConfig c × IsWrappedShape c (length output) row_count column_count)
                (m
                  >> (refuse_if
                        (bad_shape (length output) row_count column_count c)
                        (text "unexpected YOLOX output shape")
                      >> decode_rows row_count 0 output column_count (make_grid c) c))
        by_config (thrown f) e = tt
        by_config (returned u) e =
            by_shape (bad_shape (length output) row_count column_count c) refl
              ((validate_config-IsConfig c).0 e) _
