-- ===== src/Board/Ranking.antt =====
-- internal/board/board.go: what `Assemble` recommends, and what it counts.
use scootless.Base.{
  ℕ, zero, suc, ◌+◌, ◌≡◌, ◌↔◌, refl, true, false, not, String, List, [], ◌∷◌, none, some, ◌==◌,
  string_eq, eq_iff, eq_symm, if◌then◌else◌, length, take, leb, ltb, head?, count_if, arith, All,
  All-mono, Bool-cases, inl, inr, ◌∙◌, sym,
}
use scootless.Base.Int.{ℤ, pos, negsuc}
use scootless.Base.Order.{sort, IsSorted, IsOrder, sort-IsSorted, length-sort}
use scootless.Float.{Math, IsLinear, IsNumber}
use scootless.Entur.Vehicles.{Vehicle}
use scootless.Base.Dict.{put, get}
use scootless.Board.{
  Prefs, Choice, OperatorSummary, or_summary, add_vehicle, summaries, options_of, better, cut,
  assemble, too_flat, score,
}

module _ (m : Math) where
  count-put :
      (op key : String) (s : OperatorSummary) (out : List (String × OperatorSummary))
      → get op (put key s out) ≡ (if key == op then some s else get op out)
  unfolding put get
  count-put op key s [] = refl
  count-put op key s ((k, v) ∷ out) =
      ground
        (arith, count-put op key s out, eq_iff k key, eq_iff k op, eq_iff key op, eq_symm k key)

  count-summaries :
      (op : String) (vs : List Vehicle) (out : List (String × OperatorSummary))
      → (or_summary (get op (summaries m vs out))).count
        ≡ (or_summary (get op out)).count + count_if (λ (v : Vehicle). v.operator_key == op) vs
  unfolding summaries
  count-summaries op [] out = ground arith
  count-summaries op (v ∷ vs) out =
      let next = add_vehicle m v (or_summary (get v.operator_key out)) in
      let rest = count-summaries op vs (put v.operator_key next out) in
      let now_put = count-put op v.operator_key next out in
      elim (Bool-cases (v.operator_key == op)) [
        | inl hit ↦
            let same : v.operator_key ≡ op = ground (arith, eq_iff v.operator_key op) in
            let start : (or_summary (get op (put v.operator_key next out))).count
                ≡ (or_summary (get op out)).count + 1 =
              rw (now_put, hit, same) refl in
            ground arith
        | inr miss ↦
            let start : (or_summary (get op (put v.operator_key next out))).count
                ≡ (or_summary (get op out)).count =
              rw (now_put, miss) refl in
            ground arith
      ]

  -- The count of an operator is the number of its vehicles, those included that are too flat to
  -- offer.
  assemble-count :
      (vs : List Vehicle) (p : Prefs) (limit : ℤ) (op : String)
      → (or_summary (get op (assemble m vs p limit).by_operator)).count
        ≡ count_if (λ (v : Vehicle). v.operator_key == op) vs
  unfolding assemble get
  assemble-count vs p limit op = ground (arith, count-summaries op vs [])

  length-options_of :
      (p : Prefs) (vs : List Vehicle)
      → length (options_of m p vs) ≡ count_if (λ v. not (too_flat m p v)) vs
  unfolding options_of score
  length-options_of p [] = refl
  length-options_of p (v ∷ vs) = ground (arith, length-options_of p vs)

  better-IsOrder : IsLinear m → IsOrder (better m) (λ c. IsNumber m c.score)
  better-IsOrder o = record {
    asymm = λ a b. o.asymm b.score a.score;
    step = λ a b c n h k. o.step c.score b.score a.score n k h;
  }

  length-take_le : (n : ℕ) (xs : List Choice) → leb (length (take n xs)) n ≡ true
  length-take_le zero xs = ground arith
  length-take_le (suc n) [] = ground arith
  length-take_le (suc n) (x ∷ xs) = ground (arith, length-take_le n xs)

  All-take : (P : Choice → Type 0) (n : ℕ) (xs : List Choice) → All P xs → All P (take n xs)
  All-take P zero xs a = tt
  All-take P (suc n) [] a = tt
  All-take P (suc n) (x ∷ xs) a = (a.0, All-take P n xs a.1)

  All-cut : (P : Choice → Type 0) (limit : ℤ) (xs : List Choice) → All P xs → All P (cut m limit xs)
  All-cut P (pos zero) xs a = a
  All-cut P (pos (suc n)) xs a = elim (Bool-cases (ltb (suc n) (length xs))) [
    | inl long ↦ rw long (All-take P (suc n) xs a)
    | inr short ↦ rw short a
  ]
  All-cut P (negsuc n) xs a = a

  none-ranked : (ranked : List Choice) (n : ℕ) → length ranked ≡ n → (head? ranked ≡ none) ↔ (n ≡ 0)
  none-ranked [] n e = (λ h. ground arith, λ h. refl)
  none-ranked (c ∷ ranked) n e = (λ h. ground arith, λ h. ground arith)

  short_cut :
      (n : ℕ) (ranked : List Choice) → leb (length (cut m (pos (suc n)) ranked)) (suc n) ≡ true
  short_cut n ranked = elim (Bool-cases (ltb (suc n) (length ranked))) [
    | inl long ↦ rw long (length-take_le (suc n) ranked)
    | inr short ↦ rw short ground arith
  ]

  -- The best option of a ranking is no worse than any of it.
  best-ranked :
      (o : IsLinear m) (ranked : List Choice) (best : Choice)
      → IsSorted (better m) ranked
      → head? ranked ≡ some best
      → All (λ c. m.less best.score c.score ≡ false) ranked
  best-ranked o [] best s e = tt
  best-ranked o (c ∷ ranked) best s e =
      let same : c ≡ best = ground arith in
      (
        rw (sym same) ground (arith, o.asymm c.score c.score),
        All-mono (λ y. better m y c ≡ false) (λ y. m.less best.score y.score ≡ false)
            (λ y h. rw (sym same) h) ranked s.0,
      )

  -- Where no option's score is NaN, the recommendation scores no less than any option that the
  -- board lists, and there is none exactly where no vehicle has range enough to be offered; the
  -- board lists no more options than a positive limit.
  pub assemble-recommends :
      IsLinear m
      → (vs : List Vehicle) (p : Prefs) (limit : ℤ)
      → All (λ c. IsNumber m c.score) (options_of m p vs)
      → let b = assemble m vs p limit in
        ((best : Choice)
          → b.recommendation ≡ some best
          → All (λ c. m.less best.score c.score ≡ false) b.options)
        × ((b.recommendation ≡ none) ↔ (count_if (λ v. not (too_flat m p v)) vs ≡ 0))
        × ((n : ℕ) → limit ≡ pos (suc n) → leb (length b.options) (suc n) ≡ true)
  unfolding assemble
  assemble-recommends o vs p limit n =
      let options = options_of m p vs in
      let ranked = sort (better m) options in
      (
        λ best e. All-cut _ limit ranked (
            best-ranked o ranked best
              (sort-IsSorted (better m) (λ c. IsNumber m c.score) (better-IsOrder o) options n) e),
        none-ranked ranked (count_if (λ v. not (too_flat m p v)) vs)
            (length-sort (better m) options ∙ length-options_of p vs),
        λ most e. rw e (short_cut most ranked),
      )
