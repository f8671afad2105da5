-- ===== src/Subtype/Search.antt =====
-- The binary search on sorted lists (runtime/structure.c, runtime/float.c).
use nballerina.Prelude.{
  ℕ, zero, suc, ◌+◌, ◌-◌, ◌/◌, ◌≤◌, ◌<◌, ◌≡◌, ◌≢◌, ◌||◌, ◌&&◌, inl, inr, refl, sym, ◌∙◌, arith,
  Bool, true, false, not, ltb, lt→ltb, lt-or-le, if◌then◌else◌, Bool-cases,
}
use nballerina.Run.{done, Returns, ◌>>=◌}
use nballerina.Subtype.{
  Order, list_contains, tid_order, precomputed_subtype_contains, float_subtype_contains_float,
}

module _ {ℓ} {A : Type ℓ} (order : Order A) where
  -- the answer says whether an element from `start` up to `stop` is equal to `x`
  pub record Answers (members : ℕ → A) (start stop : ℕ) (x : A) (b : Bool) : Type 0 where
    pub found : b ≡ true → (i : ℕ) × (start ≤ i) × (i < stop) × (order.equal x (members i) ≡ true)
    pub missed : b ≡ false → (i : ℕ) → start ≤ i → i < stop → order.equal x (members i) ≡ false

  module _ (members : ℕ → A) (x : A) (ordered : order.ordered x ≡ true) where
    pub list_contains-Answers :
        (fuel start stop : ℕ)
        → stop < start + fuel
        → start ≤ stop
        → ((i j : ℕ) → start ≤ i → i < j → j < stop → order.less (members i) (members j) ≡ true)
        → ((i : ℕ) → start ≤ i → i < stop → order.ordered (members i) ≡ true)
        → Returns (list_contains order fuel members start stop x) (Answers members start stop x)
    unfolding list_contains
    list_contains-Answers zero start stop f h sorted good = absurd (omega arith)
    list_contains-Answers (suc fuel) start stop f h sorted good = elim (lt-or-le start stop) [
      | inr over ↦ (
        false,
        rw (empty over),
        record { found = λ e. cc; missed = λ e i p q. absurd (omega arith) },
      )
      | inl lt ↦
          let mid : ℕ = start + (stop - start) / 2 in
          let low : start ≤ mid = omega arith in
          let high : mid < stop = omega arith in
          elim (Bool-cases (order.equal x (members mid))) [
            | inl eq ↦ (
              true,
              rw (lt→ltb _ _ lt, eq),
              record { found = λ e. (mid, low, high, eq); missed = λ e. cc },
            )
            | inr ne ↦ elim (Bool-cases (order.less x (members mid))) [
              | inl less ↦
                  let (b, run, a) =
                    list_contains-Answers fuel start mid (omega arith) low
                      (λ i j p q r. sorted i j p q (omega arith))
                      (λ i p q. good i p (omega arith)) in
                  (
                    b,
                    rw (lt→ltb _ _ lt, ne, less) run,
                    record {
                      found = λ e. (let (i, p, q, r) = a.found e in (i, p, omega arith, r));
                      missed = λ e i p q. elim (lt-or-le i mid) [
                        | inl before ↦ a.missed e i p before
                        | inr after ↦ above mid i low after q less sorted
                      ];
                    },
                  )
              | inr not_less ↦
                  let (b, run, a) =
                    list_contains-Answers fuel (mid + 1) stop (omega arith) (omega arith)
                      (λ i j p q r. sorted i j (omega arith) q r)
                      (λ i p q. good i (omega arith) q) in
                  let more =
                    order.less_total x (members mid) ordered (good mid low high) ne not_less in
                  (
                    b,
                    rw (lt→ltb _ _ lt, ne, not_less) run,
                    record {
                      found = λ e. (let (i, p, q, r) = a.found e in (i, omega arith, q, r));
                      missed = λ e i p q. elim (lt-or-le mid i) [
                        | inl after ↦ a.missed e i (omega arith) q
                        | inr before ↦ below mid i p before high more sorted
                      ];
                    },
                  )
            ]
          ]
    ]
      where
        empty : stop ≤ start → ltb start stop ≡ false
        empty over = ground arith

        above :
            (mid i : ℕ)
            → start ≤ mid
            → mid ≤ i
            → i < stop
            → order.less x (members mid) ≡ true
            → ((i j : ℕ) → start ≤ i → i < j → j < stop → order.less (members i) (members j) ≡ true)
            → order.equal x (members i) ≡ false
        above mid i p q r less sorted = elim (lt-or-le mid i) [
          | inl lt ↦
              order.less-equal x (members i)
                (order.less_trans x (members mid) (members i) less (sorted mid i p lt r))
          | inr le ↦
              let same : i ≡ mid = omega arith in rw same (order.less-equal x (members mid) less)
        ]

        below :
            (mid i : ℕ)
            → start ≤ i
            → i ≤ mid
            → mid < stop
            → order.less (members mid) x ≡ true
            → ((i j : ℕ) → start ≤ i → i < j → j < stop → order.less (members i) (members j) ≡ true)
            → order.equal x (members i) ≡ false
        below mid i p q r less sorted = elim (lt-or-le i mid) [
          | inl lt ↦
              order.equal_symm x (members i)
              ∙ order.less-equal (members i) x
                  (order.less_trans (members i) (members mid) x (sorted i mid p lt r) less)
          | inr le ↦
              let same : i ≡ mid = omega arith in
              rw same (order.equal_symm x (members mid) ∙ order.less-equal (members mid) x less)
        ]

-- For type identifiers in ascending order, the binary search of
-- `_bal_precomputed_subtype_contains` returns, and the answer says whether the identifier is one
-- of them
pub precomputed_subtype_contains-Answers :
    (n_tids : ℕ) (tids : ℕ → ℕ) (tid : ℕ)
    → ((i j : ℕ) → i < j → j < n_tids → tids i < tids j)
    → Returns (precomputed_subtype_contains n_tids tids tid) (Answers tid_order tids 0 n_tids tid)
unfolding precomputed_subtype_contains
precomputed_subtype_contains-Answers n_tids tids tid sorted =
    list_contains-Answers tid_order tids tid refl (n_tids + 1) 0 n_tids (omega arith) (omega arith)
      (λ i j p q r. lt→ltb _ _ (sorted i j q r)) (λ i p q. refl)

-- a float of the list, where every NaN is the same
abbrev pub same {ℓ} : {A : Type ℓ} → Order A → A → A → Bool
same order d a = order.equal d a || (not (order.ordered d) && not (order.ordered a))

not_itself : (x : Bool) → not x ≢ x
not_itself true e = cc
not_itself false e = cc

module _ {ℓ} {A : Type ℓ} (order : Order A) where
  -- the answer is `included` if the float is in the list, and the opposite if it is not
  pub record FloatAnswers (n : ℕ) (floats : ℕ → A) (included : Bool) (d : A) (b : Bool)
      : Type 0 where
    pub found : b ≡ included → (i : ℕ) × (i < n) × (same order d (floats i) ≡ true)
    pub missed : b ≡ not included → (i : ℕ) → i < n → same order d (floats i) ≡ false

  -- what balrt.h says of the floats of a subtype
  pub record IsSorted (n : ℕ) (floats : ℕ → A) : Type 0 where
    pub some_float : 0 < n
    pub numbers : (i : ℕ) → 0 < i → i < n → order.ordered (floats i) ≡ true
    pub ascending :
        (i j : ℕ)
        → order.ordered (floats i) ≡ true
        → i < j
        → j < n
        → order.less (floats i) (floats j) ≡ true

  module _ (n : ℕ) (floats : ℕ → A) (included : Bool) (d : A) (sorted : IsSorted n floats) where
    -- the search for a number, from the first number of the list
    searched :
        (start : ℕ)
        → start ≤ 1
        → start ≤ n
        → order.ordered d ≡ true
        → ((i : ℕ) → start ≤ i → i < n → order.ordered (floats i) ≡ true)
        → ((i : ℕ) → i < start → order.ordered (floats i) ≡ false)
        → Returns
            (list_contains order (n + 1) floats start n d >>= λ found.
              done (if found then included else not included))
            (FloatAnswers n floats included d)
    searched start s t number good bad =
        let (b, run, a) =
          list_contains-Answers order floats d number (n + 1) start n (omega arith) t
            (λ i j p q r. sorted.ascending i j (good i p (omega arith)) q r) good in
        (if b then included else not included, rw run, answers b a)
      where
        answers :
            (b : Bool)
            → Answers order floats start n d b
            → FloatAnswers n floats included d (if b then included else not included)
        answers true a =
            let (i, p, q, e) = a.found refl in
            record { found = λ _. (i, q, rw e); missed = λ e. absurd (not_itself included (sym e)) }
        answers false a = record {
          found = λ e. absurd (not_itself included e);
          missed = λ e i q. elim (lt-or-le i start) [
            | inl before ↦ other i before
            | inr after ↦ rw (a.missed refl i after q, number)
          ];
        }
          where
            other : (i : ℕ) → i < start → same order d (floats i) ≡ false
            other i before = rw (
              order.equal_symm d (floats i),
              order.unordered-equal (floats i) d (bad i before),
              number,
            )

    unordered_missed :
        (i : ℕ)
        → order.ordered d ≡ false
        → order.ordered (floats i) ≡ true
        → same order d (floats i) ≡ false
    unordered_missed i nan number = rw (order.unordered-equal d (floats i) nan, nan, number)

    -- For the sorted floats of a subtype, of which only the first may be a NaN, the test of a
    -- float returns, and the answer is `included` if the float is in the list, where a NaN equals
    -- a NaN, and the opposite if it is not
    pub float_subtype_contains_float-FloatAnswers :
        Returns
          (float_subtype_contains_float order n floats included d)
          (FloatAnswers n floats included d)
    unfolding float_subtype_contains_float
    float_subtype_contains_float-FloatAnswers = elim (Bool-cases (order.ordered (floats 0))) [
      | inl a ↦ elim (Bool-cases (order.ordered d)) [
        | inl b ↦
            rw (a, b)
              (searched 0 (omega arith) (omega arith) b (λ i p q. number i q a)
                (λ i p. absurd (omega arith)))
        | inr b ↦ (
          not included,
          rw (a, b),
          record {
            found = λ e. absurd (not_itself included e);
            missed = λ e i q. unordered_missed i b (number i q a);
          },
        )
      ]
      | inr a ↦ elim (Bool-cases (order.ordered d)) [
        | inl b ↦
            rw (a, b)
              (searched 1 (omega arith) (omega (arith, sorted.some_float)) b
                (λ i p q. sorted.numbers i (omega arith) q) (λ i p. nan_first i p a))
        | inr b ↦ (
          included,
          rw (a, b),
          record {
            found = λ e. (0, sorted.some_float, rw (a, b, order.unordered-equal d (floats 0) b));
            missed = λ e. absurd (not_itself included (sym e));
          },
        )
      ]
    ]
      where
        number : (i : ℕ) → i < n → order.ordered (floats 0) ≡ true → order.ordered (floats i) ≡ true
        number i q a = elim (lt-or-le 0 i) [
          | inl more ↦ sorted.numbers i more q
          | inr le ↦ let e : i ≡ 0 = omega arith in rw e a
        ]

        nan_first :
            (i : ℕ) → i < 1 → order.ordered (floats 0) ≡ false → order.ordered (floats i) ≡ false
        nan_first i p a = let e : i ≡ 0 = omega arith in rw e a
