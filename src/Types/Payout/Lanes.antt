-- ===== src/Types/Payout/Lanes.antt =====
-- The memo of a built coinbase, read back, and the lanes of its outputs.
use monkeymesh.Prelude.{
  ℕ, suc, ◌≤◌, ◌<◌, ◌≡◌, ◌≢◌, refl, ap, ◌∙◌, sym, Option, none, some, List, [], ◌∷◌, ◌++◌, arith,
  All, All-append, u64_max, append_assoc, append-nil,
}
use monkeymesh.Prelude.Text.{
  Text, codes, IsDigit→ne, strip_prefix, strip_prefix-append, split, split-append, split-single,
  parse_uint, parse_uint-show, show, show-IsDigit,
}
use monkeymesh.Types.Payout.{
  cpu_find, gpu_exam, gpu_fusion, node_work, PomcLayout, read_extra, read_extras, read_counts,
  read_segments, parse_pomc_layout, coinbase_lane, lane_of, gpu_lane_of, gpu_lane, market_memo,
  exam_suffix,
}

not_sep : (sep : ℕ) → 57 < sep → (n : ℕ) → All (λ x. x ≢ sep) (show n)
not_sep sep big n = IsDigit→ne sep big (show n) (show-IsDigit n)

-- The three counts, between colons.
read_counts-show :
    (h g n : ℕ)
    → h ≤ u64_max
    → g ≤ u64_max
    → n ≤ u64_max
    → read_counts (split b':' (show h ++ (b':' ∷ (show g ++ (b':' ∷ show n)))))
      ≡ some (record { height = h; n_gpu = g; n_node = n; n_exam = none; maturity = none })
unfolding read_counts
read_counts-show h g n lh lg ln =
    rw (split-append b':' (show h) (show g ++ (b':' ∷ show n)) (not_sep _ (omega arith) h)) (
      rw (split-append b':' (show g) (show n) (not_sep _ (omega arith) g)) (
        rw (split-single b':' (show n) (not_sep _ (omega arith) n)) (
          ground (
            arith,
            parse_uint-show u64_max h lh,
            parse_uint-show u64_max g lg,
            parse_uint-show u64_max n ln,
          ))))

abbrev head_text : ℕ → ℕ → ℕ → Text
head_text h g n = codes "pomc:v1:" ++ (show h ++ (b':' ∷ (show g ++ (b':' ∷ show n))))

abbrev NoBar : Text → Type 0
NoBar = All (λ x. x ≢ b'|')

head_text-NoBar : (h g n : ℕ) → NoBar (head_text h g n)
head_text-NoBar h g n = All-append _ (codes "pomc:v1:") _ (ground arith) (
    All-append _ (show h) _ (not_sep _ (omega arith) h) (
      (λ e. omega arith),
      All-append _ (show g) _ (not_sep _ (omega arith) g)
          ((λ e. omega arith), not_sep _ (omega arith) n),
    ))

abbrev pub layout : ℕ → ℕ → ℕ → Option ℕ → PomcLayout
layout h g n n_exam = record {
  height = h;
  n_gpu = g;
  n_node = n;
  n_exam = n_exam;
  maturity = some 20;
}

read_extra-mat :
    (lay : PomcLayout) → read_extra (codes "mat:20") lay ≡ record lay { maturity = some 20 }
unfolding read_extra strip_prefix parse_uint
read_extra-mat lay = refl

read_extra-exam :
    (k : ℕ) (lay : PomcLayout)
    → k ≤ u64_max
    → read_extra (codes "exam:" ++ show k) lay ≡ record lay { n_exam = some k }
unfolding read_extra
read_extra-exam k lay le =
    ground (arith, strip_prefix-append (codes "exam:") (show k), parse_uint-show u64_max k le)

market_memo-split :
    (h g n : ℕ) (more : Text)
    → split b'|' (market_memo h g n ++ more) ≡ head_text h g n ∷ split b'|' (codes "mat:20" ++ more)
unfolding market_memo
market_memo-split h g n more =
    ap (split b'|') (simp append_assoc)
    ∙ split-append b'|' (head_text h g n) (codes "mat:20" ++ more) (head_text-NoBar h g n)

read_segments-head :
    (h g n : ℕ) (extras : List Text)
    → h ≤ u64_max
    → g ≤ u64_max
    → n ≤ u64_max
    → read_segments (head_text h g n ∷ extras)
      ≡ some (
          read_extras extras
            (record { height = h; n_gpu = g; n_node = n; n_exam = none; maturity = none }))
unfolding read_segments
read_segments-head h g n extras lh lg ln = ground (
  arith,
  strip_prefix-append (codes "pomc:v1:") (show h ++ (b':' ∷ (show g ++ (b':' ∷ show n)))),
  read_counts-show h g n lh lg ln,
)

-- The memo of a built coinbase parses back to its height, its counts and the maturity of 20 blocks.
pub parse_pomc_layout-market_memo :
    (h g n : ℕ)
    → h ≤ u64_max
    → g ≤ u64_max
    → n ≤ u64_max
    → parse_pomc_layout (market_memo h g n) ≡ some (layout h g n none)
unfolding parse_pomc_layout read_extras
parse_pomc_layout-market_memo h g n lh lg ln =
    ap (λ (s : Text). read_segments (split b'|' s)) (sym (append-nil (market_memo h g n)))
    ∙ ap read_segments (market_memo-split h g n [])
    ∙ ap (λ (r : List Text). read_segments (head_text h g n ∷ r))
        (split-single b'|' (codes "mat:20") (ground arith))
    ∙ read_segments-head h g n (codes "mat:20" ∷ []) lh lg ln
    ∙ rw read_extra-mat

-- The memo of a built coinbase with an exam count behind it parses back to its height, its two counts,
-- the exam count and the maturity of 20 blocks, where each number fits into 64 bits.
pub parse_pomc_layout-exam_suffix :
    (h g n k : ℕ)
    → h ≤ u64_max
    → g ≤ u64_max
    → n ≤ u64_max
    → k ≤ u64_max
    → parse_pomc_layout (exam_suffix k (market_memo h g n)) ≡ some (layout h g n (some k))
unfolding parse_pomc_layout read_extras exam_suffix
parse_pomc_layout-exam_suffix h g n k lh lg ln lk =
    ap read_segments (market_memo-split h g n (codes "|exam:" ++ show k))
    ∙ ap (λ (r : List Text). read_segments (head_text h g n ∷ r))
        (split-append b'|' (codes "mat:20") (codes "exam:" ++ show k) (ground arith)
          ∙ ap (λ (r : List Text). codes "mat:20" ∷ r)
              (split-single b'|' (codes "exam:" ++ show k)
                (All-append _ (codes "exam:") _ (ground arith) (not_sep _ (omega arith) k))))
    ∙ read_segments-head h g n (codes "mat:20" ∷ (codes "exam:" ++ show k) ∷ []) lh lg ln
    ∙ rw read_extra-mat (rw (read_extra-exam k _ lk))

-- The lane of an output by its place, from the counts of a memo that reads back.
module _ (memo : Text) (lay : PomcLayout) (is : parse_pomc_layout memo ≡ some lay) (j total : ℕ)
    (inside : j < total) where
  pub coinbase_lane-node : 0 < j → lay.n_gpu < j → coinbase_lane memo j total ≡ node_work
  unfolding coinbase_lane lane_of
  coinbase_lane-node pos past = rw is (ground arith)

  pub coinbase_lane-exam :
      (k : ℕ)
      → lay.n_exam ≡ some k
      → 0 < j
      → j ≤ k
      → j ≤ lay.n_gpu
      → coinbase_lane memo j total ≡ gpu_exam
  unfolding coinbase_lane lane_of gpu_lane_of
  coinbase_lane-exam k exams pos among le = rw is (rw exams (ground arith))

  pub coinbase_lane-fusion :
      (k : ℕ)
      → lay.n_exam ≡ some k
      → k < j
      → j ≤ lay.n_gpu
      → coinbase_lane memo j total ≡ gpu_fusion
  unfolding coinbase_lane lane_of gpu_lane_of
  coinbase_lane-fusion k exams past le = rw is (rw exams (ground arith))

  pub coinbase_lane-plain :
      lay.n_exam ≡ none → 0 < j → j ≤ lay.n_gpu → coinbase_lane memo j total ≡ gpu_lane
  unfolding coinbase_lane lane_of gpu_lane_of
  coinbase_lane-plain plain pos le = rw is (rw plain (ground arith))

pub coinbase_lane-finder :
    (memo : Text) (lay : PomcLayout) (total : ℕ)
    → parse_pomc_layout memo ≡ some lay
    → coinbase_lane memo 0 (suc total) ≡ cpu_find
unfolding coinbase_lane lane_of
coinbase_lane-finder memo lay total is = rw is (ground arith)
