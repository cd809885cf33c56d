-- ===== src/Streams/Bounds.antt =====
-- The log of the ticker: what it holds, and how much.
use native.Mathlib.Nat.{suc-mod, mod-lt, mod-eq_of_lt, mod_self}
use samples_python.Base.{
  drop, ℕ, zero, suc, ◌+◌, ◌-◌, ◌%◌, ◌≤◌, ◌<◌, min, ◌&&◌, none, some, List, [], ◌∷◌, ◌++◌, ltb,
  nat_beq, length, ◌≡◌, ◌⊎◌, refl, sym, ap, ◌∙◌, subst, inl, inr, arith, Bool-cases,
}
use samples_python.Streams.Log.{WorkflowStream}
use samples_python.Streams.{TickerInput, Ticker, new_ticker, truncated, tick, ticks, run_ticker}

-- The numbers from `a`, `n` of them.
unfoldable pub numbers : (a n : ℕ) → List ℕ
numbers a zero = []
numbers a (suc n) = a ∷ numbers (a + 1) n

numbers-append : (a n : ℕ) → numbers a n ++ (a + n) ∷ [] ≡ numbers a (n + 1)
unfolding numbers
numbers-append a zero = ap (λ k. k ∷ []) (omega arith)
numbers-append a (suc n) =
    let later : a + suc n ≡ (a + 1) + n = omega arith in
    let next : suc n + 1 ≡ suc (n + 1) = omega arith in
    ap (λ k. a ∷ (numbers (a + 1) n ++ k ∷ [])) later
    ∙ ap (λ ks. a ∷ ks) (numbers-append (a + 1) n)
    ∙ ap (numbers a) (sym next)

drop-numbers : (k a n : ℕ) → drop k (numbers a n) ≡ numbers (a + k) (n - k)
unfolding numbers
drop-numbers zero a n =
    let here : a ≡ a + 0 = omega arith in
    let all_left : n ≡ n - 0 = omega arith in
    ap (λ b. numbers b n) here ∙ ap (numbers (a + 0)) all_left
drop-numbers (suc k) a zero =
    let left : zero ≡ zero - suc k = omega arith in ap (numbers (a + suc k)) left
drop-numbers (suc k) a (suc n) =
    let later : (a + 1) + k ≡ a + suc k = omega arith in
    let left : n - k ≡ suc n - suc k = omega arith in
    drop-numbers k (a + 1) n ∙ ap (λ b. numbers b (n - k)) later ∙ ap (numbers (a + suc k)) left

length-numbers : (a n : ℕ) → length (numbers a n) ≡ n
unfolding numbers
length-numbers a zero = refl
length-numbers a (suc n) = ap suc (length-numbers (a + 1) n)

-- The remainder grows by one, or is 0.
remainder_next :
    (n e : ℕ) → (((n + 1) % suc e ≡ 0) ⊎ ((n + 1) % suc e ≡ n % suc e + 1)) × (n % suc e ≤ e)
remainder_next n e =
    let below : n % suc e < suc e = mod-lt n (omega arith) in
    let step : suc n % suc e ≡ suc (n % suc e) % suc e = suc-mod n (suc e) in
    let same : n + 1 ≡ suc n = omega arith in
    (
      rw same (elim (Bool-cases (ltb (n % suc e) e)) [
        | inl fits ↦ inr (step ∙ mod-eq_of_lt (ground (arith, fits)) ∙ omega arith)
        | inr full ↦
            let last : suc (n % suc e) ≡ suc e = ground (arith, full, below) in
            inl (step ∙ ap (λ k. k % suc e) last ∙ mod_self (suc e))
      ]),
      omega (arith, below),
    )

-- An input on a fresh start.
abbrev pub every :
    {StreamState : Type 0} → (truncate_every keep_last count : ℕ) → TickerInput StreamState
every truncate_every keep_last count = record {
  count = count;
  keep_last = keep_last;
  truncate_every = truncate_every;
  stream_state = none;
}

module _ (W : WorkflowStream ℕ) (keep_last e : ℕ) where
  -- The ticker after n turns, its log from the front.
  Holds : (n base len : ℕ) → Ticker W → Type 0
  Holds n base len t =
      (t.published ≡ n)
      × (W.base_offset t.stream ≡ base)
      × (W.log t.stream ≡ numbers base len)
      × (base + len ≡ n)

  IsKept : ℕ → Ticker W → Type 0
  IsKept n t =
      (base : ℕ) × (len : ℕ) × Holds n base len t
      × (len ≤ keep_last + n % suc e)
      × (min keep_last n ≤ len)

  Holds-publish :
      (n base len : ℕ) (t : Ticker W)
      → Holds n base len t
      → Holds
          (n + 1)
          base
          (len + 1)
          (record t { stream = W.publish n t.stream; published = t.published + 1 })
  unfolding Holds
  Holds-publish n base len t (published, front, logged, size) = (
    omega (arith, published),
    W.base_offset-publish n t.stream ∙ front,
    W.log-publish n t.stream
        ∙ ap (λ xs. xs ++ n ∷ []) logged
        ∙ ap (λ k. numbers base len ++ k ∷ []) (sym size)
        ∙ numbers-append base len,
    omega (arith, size),
  )

  Holds-truncate :
      (n base len : ℕ) (t : Ticker W)
      → Holds n base len t
      → keep_last < n
      → keep_last ≤ len
      → Holds n
          (n - keep_last)
          keep_last
          (record t { stream = W.truncate (t.published - keep_last) t.stream })
  unfolding Holds
  Holds-truncate n base len t (published, front, logged, size) more enough =
      let cut = t.published - keep_last in
      let long : length (W.log t.stream) ≡ len = ap length logged ∙ length-numbers base len in
      let low : W.base_offset t.stream ≤ cut = omega (arith, front, published, size, enough) in
      let high : cut ≤ W.base_offset t.stream + length (W.log t.stream) =
        omega (arith, front, published, size, long) in
      let from : base + (cut - W.base_offset t.stream) ≡ n - keep_last =
        omega (arith, front, published, size, enough) in
      let left : len - (cut - W.base_offset t.stream) ≡ keep_last =
        omega (arith, front, published, size, enough, more) in
      (
        published,
        W.base_offset-truncate cut t.stream low high ∙ omega (arith, published),
        W.log-truncate cut t.stream low high
            ∙ ap (drop (cut - W.base_offset t.stream)) logged
            ∙ drop-numbers (cut - W.base_offset t.stream) base len
            ∙ ap (λ b. numbers b (len - (cut - W.base_offset t.stream))) from
            ∙ ap (numbers (n - keep_last)) left,
        omega (arith, more),
      )

  truncated-IsKept :
      (n base len : ℕ) (t : Ticker W)
      → Holds (n + 1) base (len + 1) t
      → len ≤ keep_last + n % suc e
      → min keep_last n ≤ len
      → (t' : Ticker W) × (truncated W keep_last (some ((n + 1) % suc e)) t ≡ some t')
        × IsKept (n + 1) t'
  unfolding IsKept Holds
  truncated-IsKept n base len t holds short enough =
      let next = remainder_next n e in
      elim (Bool-cases (nat_beq ((n + 1) % suc e) 0 && ltb keep_last t.published)) [
        | inl cut ↦
            let more : keep_last < n + 1 = ground (arith, cut, holds.0) in
            rw cut (
              record t { stream = W.truncate (t.published - keep_last) t.stream },
              refl,
              (
                n + 1 - keep_last,
                keep_last,
                Holds-truncate (n + 1) base (len + 1) t holds more (omega (arith, more, enough)),
                omega arith,
                omega arith,
              ),
            )
        | inr whole ↦
            let size = holds.3 in
            rw whole (
              t,
              refl,
              (
                base,
                len + 1,
                holds,
                ground (arith, whole, next, short, size, holds.0),
                omega (arith, enough),
              ),
            )
      ]

  tick-IsKept :
      (n count : ℕ) (t : Ticker W)
      → IsKept n t
      → let input = every (suc e) keep_last count in
        (t' : Ticker W) × (tick W input n t ≡ some t') × IsKept (n + 1) t'
  unfolding tick IsKept Holds
  tick-IsKept n count t (base, len, holds, short, enough) =
      let after = record t { stream = W.publish n t.stream; published = t.published + 1 } in
      let published : t.published + 1 ≡ n + 1 = omega (arith, holds.0) in
      subst
        (λ (k : ℕ).
          (t' : Ticker W) × (truncated W keep_last (some (k % suc e)) after ≡ some t')
          × IsKept (n + 1) t')
        (sym published)
        (truncated-IsKept n base len after (Holds-publish n base len t holds) short enough)

  ticks-IsKept :
      (left n count : ℕ) (t : Ticker W)
      → IsKept n t
      → let input = every (suc e) keep_last count in
        (t' : Ticker W) × (ticks W input left n t ≡ some t') × IsKept (n + left) t'
  unfolding ticks
  ticks-IsKept zero n count t kept =
      let same : n ≡ n + 0 = omega arith in (t, refl, subst (λ (k : ℕ). IsKept k t) same kept)
  ticks-IsKept (suc left) n count t kept =
      let now = tick-IsKept n count t kept in
      let later = ticks-IsKept left (n + 1) count now.0 now.2 in
      let same : (n + 1) + left ≡ n + suc left = omega arith in
      (later.0, rw now.1 later.1, subst (λ (k : ℕ). IsKept k later.0) same later.2)

  new_ticker-IsKept : (count : ℕ) → IsKept 0 (new_ticker W (every (suc e) keep_last count))
  unfolding new_ticker IsKept Holds numbers
  new_ticker-IsKept count =
      (0, 0, (refl, W.base_offset-new, W.log-new, omega arith), omega arith, omega arith)

-- On a fresh start, where no state of a stream is carried over, and for every period of truncation
-- but 0, the ticker publishes all its events and raises nothing; in
-- the end its log holds the last of the numbers up to the count, in their order and under their
-- own offsets, at least as many as it is to keep or as there are, and fewer than those and the period
-- together.
pub run_ticker-bounded :
    (W : WorkflowStream ℕ) (count keep_last e : ℕ)
    → (t : Ticker W) × (run_ticker W (every (suc e) keep_last count) ≡ some t)
      × (t.published ≡ count)
      × (W.log t.stream ≡ numbers (W.base_offset t.stream) (length (W.log t.stream)))
      × (W.base_offset t.stream + length (W.log t.stream) ≡ count)
      × (min keep_last count ≤ length (W.log t.stream))
      × (length (W.log t.stream) < keep_last + suc e)
unfolding run_ticker IsKept Holds
run_ticker-bounded W count keep_last e =
    let kept =
      ticks-IsKept W keep_last e count 0 count (new_ticker W (every (suc e) keep_last count))
        (new_ticker-IsKept W keep_last e count) in
    let t = kept.0 in
    let base = kept.2.0 in
    let len = kept.2.1 in
    let holds = kept.2.2 in
    let size : length (W.log t.stream) ≡ len = ap length holds.2 ∙ length-numbers base len in
    let r = (remainder_next count e).1 in
    let all : 0 + count ≡ count = omega arith in
    (
      t,
      kept.1,
      holds.0 ∙ all,
      holds.2
          ∙ ap (λ b. numbers b len) (sym holds.1)
          ∙ ap (numbers (W.base_offset t.stream)) (sym size),
      omega (arith, holds.1, size, holds.3),
      omega (arith, kept.2.4, size),
      omega (arith, kept.2.3, size, r, ap (λ k. k % suc e) all),
    )
