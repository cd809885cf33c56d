-- ===== src/Window/Batch/Cover.antt =====
-- The ranges of the sliding windows cover the records, and their windows fit the limit.
use samples_python.Base.{
  ℕ, zero, suc, ◌+◌, ◌*◌, ◌/◌, ◌%◌, ◌<◌, ◌≤◌, false, none, some, List, [], ◌∷◌, ◌≡◌, refl, sym, ◌∙◌,
  ap, arith, ltb, lt→ltb, length, All, All-map,
}
use native.Mathlib.Nat.{div-add-mod, mod-lt}
use samples_python.Window.{SlidingWindowWorkflowInput}
use samples_python.Window.Invariant.{InputIsCounted}
use samples_python.Window.Batch.{
  ProcessBatchWorkflowInput, replicate, increment_first, divide_into_partitions,
  window_less_than_partitions, division_by_zero, raised, children, child_inputs, start_children,
  run, sum,
}

sum-replicate : (n base : ℕ) → sum (replicate n base) ≡ n * base
sum-replicate zero base = omega arith
sum-replicate (suc n) base = omega (arith, sum-replicate n base)

sum-increment_first :
    (r : ℕ) (ps : List ℕ) → r ≤ length ps → sum (increment_first r ps) ≡ sum ps + r
unfolding increment_first
sum-increment_first zero ps h = omega arith
sum-increment_first (suc r) [] h = absurd (omega arith)
sum-increment_first (suc r) (p ∷ ps) h = omega (arith, sum-increment_first r ps)

length-replicate : (n base : ℕ) → length (replicate n base) ≡ n
length-replicate zero base = refl
length-replicate (suc n) base = ap suc (length-replicate n base)

length-increment_first : (r : ℕ) (ps : List ℕ) → length (increment_first r ps) ≡ length ps
unfolding increment_first
length-increment_first zero ps = refl
length-increment_first (suc r) [] = refl
length-increment_first (suc r) (p ∷ ps) = ap suc (length-increment_first r ps)

-- Every part is the quotient, or one more.
abbrev pub Even : ℕ → List ℕ → Type 0
Even base ps = All (λ p. (base ≤ p) × (p ≤ base + 1)) ps

replicate-Even : (n base : ℕ) → Even base (replicate n base)
replicate-Even zero base = tt
replicate-Even (suc n) base = ((omega arith, omega arith), replicate-Even n base)

increment-Even : (r n base : ℕ) → Even base (increment_first r (replicate n base))
unfolding increment_first
increment-Even zero n base = replicate-Even n base
increment-Even (suc r) zero base = tt
increment-Even (suc r) (suc n) base = ((omega arith, omega arith), increment-Even r n base)

-- Dividing a number into n parts, n above 0, gives n parts whose sum is the number, and no two of
-- which differ by more than one; dividing into no parts fails.
pub divide_into_partitions_cases :
    (number n : ℕ)
    → (n ≡ 0 → divide_into_partitions number n ≡ none)
      × (0 < n
          → (ps : List ℕ) × (divide_into_partitions number n ≡ some ps)
            × (length ps ≡ n)
            × (sum ps ≡ number)
            × Even (number / n) ps)
unfolding divide_into_partitions
divide_into_partitions_cases number n = (
  λ z. ground arith,
  λ pos.
      let ps = replicate n (number / n) in
      (
        increment_first (number % n) ps,
        ground arith,
        length-increment_first (number % n) ps ∙ length-replicate n (number / n),
        omega (
          arith,
          sum-increment_first (number % n) ps
              (omega (arith, length-replicate n (number / n), mod-lt number pos)),
          sum-replicate n (number / n),
          div-add-mod number n,
        ),
        increment-Even (number % n) n (number / n),
      ),
)

-- The inputs stand side by side from `start` to `end`, each a range that nothing was done of.
abbrev pub Covers : (start end : ℕ) → List SlidingWindowWorkflowInput → Type 0
Covers start end [] = start ≡ end
Covers start end (i ∷ is) =
    (i.offset ≡ start) × InputIsCounted i.offset i × Covers i.maximum_offset end is

abbrev pub windows : List SlidingWindowWorkflowInput → List ℕ
windows [] = []
windows (i ∷ is) = i.sliding_window_size ∷ windows is

child_inputs-Covers :
    (page_size record_count offset : ℕ) (ps sizes : List ℕ)
    → offset + sum ps ≡ record_count
    → length ps ≡ length sizes
    → Covers offset record_count (child_inputs page_size record_count offset ps sizes)
unfolding child_inputs
child_inputs-Covers page_size record_count offset [] sizes h l = omega arith
child_inputs-Covers page_size record_count offset (p ∷ ps) [] h l = absurd (omega arith)
child_inputs-Covers page_size record_count offset (p ∷ ps) (size ∷ sizes) h l =
    let inside : ltb record_count (offset + p) ≡ false = ground arith in
    rw inside (
      refl,
      record {
        counted = omega arith;
        below = tt;
        distinct = tt;
        within = omega arith;
        window = omega arith;
      },
      child_inputs-Covers page_size record_count (offset + p) ps sizes (omega arith) (omega arith),
    )

windows-child_inputs :
    (page_size record_count offset : ℕ) (ps sizes : List ℕ)
    → length ps ≡ length sizes
    → windows (child_inputs page_size record_count offset ps sizes) ≡ sizes
unfolding child_inputs
windows-child_inputs page_size record_count offset [] [] l = refl
windows-child_inputs page_size record_count offset [] (size ∷ sizes) l = absurd (omega arith)
windows-child_inputs page_size record_count offset (p ∷ ps) [] l = absurd (omega arith)
windows-child_inputs page_size record_count offset (p ∷ ps) (size ∷ sizes) l =
    ap (λ (rest : List ℕ). size ∷ rest)
      (windows-child_inputs page_size record_count (offset + p) ps sizes (omega arith))

Even-pos : (base : ℕ) (ps : List ℕ) → 0 < base → Even base ps → All (λ p. 0 < p) ps
Even-pos base ps h = All-map (λ p. (base ≤ p) × (p ≤ base + 1)) (λ p. 0 < p) (λ p e. omega arith) ps

quotient_pos : (m n : ℕ) → 0 < n → n ≤ m → 0 < m / n
quotient_pos m n pos h = grind (arith, div-add-mod m n, mod-lt m pos)

not_less : (m n : ℕ) → n ≤ m → ltb m n ≡ false
not_less m n h = ground arith

-- A batch with at least one partition, and a window size of at least one for each, starts one
-- sliding window for each partition. Their ranges stand side by side and cover the records from 0
-- to the record count, and their windows, none of them empty, add up to the window size asked for.
-- A window size below the number of partitions is refused, and no partitions at all is a division
-- by zero.
pub run_cases :
    (input : ProcessBatchWorkflowInput) (record_count : ℕ)
    → (input.sliding_window_size < input.partitions
        → run input record_count ≡ raised window_less_than_partitions)
      × (input.partitions ≡ 0 → run input record_count ≡ raised division_by_zero)
      × (0 < input.partitions
          → input.partitions ≤ input.sliding_window_size
          → (is : List SlidingWindowWorkflowInput) × (run input record_count ≡ children is)
            × Covers 0 record_count is
            × (length (windows is) ≡ input.partitions)
            × (sum (windows is) ≡ input.sliding_window_size)
            × All (λ size. 0 < size) (windows is))
unfolding run
run_cases input record_count = (
  λ h. rw (lt→ltb _ _ h),
  λ h. ground (arith, (divide_into_partitions_cases record_count input.partitions).0 h),
  λ pos enough.
      let (ps, e, l, total, _) =
        (divide_into_partitions_cases record_count input.partitions).1 pos in
      let (sizes, e', l', total', even) =
        (divide_into_partitions_cases input.sliding_window_size input.partitions).1 pos in
      let is = child_inputs input.page_size record_count 0 ps sizes in
      let sizes_are = windows-child_inputs input.page_size record_count 0 ps sizes (l ∙ sym l') in
      (
        is,
        rw (not_less input.sliding_window_size input.partitions enough, e, e', start_children),
        child_inputs-Covers input.page_size record_count 0 ps sizes (omega (arith, total))
            (l ∙ sym l'),
        ap length sizes_are ∙ l',
        ap sum sizes_are ∙ total',
        rw sizes_are (
            Even-pos _ sizes (quotient_pos input.sliding_window_size input.partitions pos enough)
              even),
      ),
)
