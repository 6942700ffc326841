-- ===== src/RCanary/Order/Counts.antt =====
-- How often a number stands in a list, and how many edges lead to a block from those that have not been
-- visited.
use rapx_log.Prelude.{
  ℕ, zero, suc, ◌+◌, ◌≤◌, ◌<◌, ◌≡◌, refl, sym, ap, subst, ◌∙◌, ◌⊎◌, inl, inr, ◌==◌, ==_iff, false,
  Bool-cases, if◌then◌else◌, ltb, some, none, Option, Option-cases, List, [], ◌∷◌, ◌++◌, some-inj,
  arith,
}
use rapx_log.RCanary.Order.{keep_max, pop}

abbrev pub count : ℕ → List ℕ → ℕ
count v [] = 0
count v (x ∷ xs) = (if x == v then 1 else 0) + count v xs

pub count-append : (v : ℕ) (xs ys : List ℕ) → count v (xs ++ ys) ≡ count v xs + count v ys
count-append v [] ys = omega arith
count-append v (x ∷ xs) ys = ground (arith, count-append v xs ys)

pub pop-none : (q : List ℕ) → pop q ≡ none → q ≡ []
unfolding pop
pop-none [] h = refl
pop-none (x ∷ xs) h = absurd (keeps_one (pop xs) h)
  where
    keeps_one : (o : Option (ℕ × List ℕ)) → keep_max x xs o ≡ none → ⊥
    keeps_one none h = cc
    keeps_one (some (m, rest)) h = elim (Bool-cases (ltb x m)) [
      | inl less ↦ (let bad : some (m, x ∷ rest) ≡ none = rw less at h in cc)
      | inr more ↦ (let bad : some (x, xs) ≡ none = rw more at h in cc)
    ]

-- What is popped was there, and nothing else goes.
count-keep_max :
    (x top : ℕ) (xs rest : List ℕ) (o : Option (ℕ × List ℕ)) (v : ℕ)
    → ((o ≡ none) × (xs ≡ []))
      ⊎ ((m : ℕ) × (ys : List ℕ) × (o ≡ some (m, ys)) × (count v xs ≡ count v (m ∷ ys)))
    → keep_max x xs o ≡ some (top, rest)
    → count v (x ∷ xs) ≡ count v (top ∷ rest)
count-keep_max x top xs rest o v (inl (e, empty)) h =
    let h' : some (x, []) ≡ some (top, rest) = rw e at h in
    ap (λ z. count v (x ∷ z)) empty ∙ ap (λ z. count v (z.0 ∷ z.1)) (some-inj h')
count-keep_max x top xs rest o v (inr (m, ys, e, same)) h =
    let h' : keep_max x xs (some (m, ys)) ≡ some (top, rest) = rw e at h in
    elim (Bool-cases (ltb x m)) [
      | inl less ↦
          let h'' : some (m, x ∷ ys) ≡ some (top, rest) = rw less at h' in
          let swap : count v (x ∷ xs) ≡ count v (m ∷ x ∷ ys) = ground (arith, same) in
          swap ∙ ap (λ z. count v (z.0 ∷ z.1)) (some-inj h'')
      | inr more ↦
          let h'' : some (x, xs) ≡ some (top, rest) = rw more at h' in
          ap (λ z. count v (z.0 ∷ z.1)) (some-inj h'')
    ]

pub count-pop :
    (q : List ℕ) (top : ℕ) (rest : List ℕ)
    → pop q ≡ some (top, rest)
    → (v : ℕ) → count v q ≡ count v (top ∷ rest)
unfolding pop
count-pop [] top rest h v = cc
count-pop (x ∷ xs) top rest h v = elim (Option-cases (pop xs)) [
  | inl empty ↦ count-keep_max x top xs rest (pop xs) v (inl (empty, pop-none xs empty)) h
  | inr ((m, ys), e) ↦
      count-keep_max x top xs rest (pop xs) v (inr (m, ys, e, count-pop xs m ys e v)) h
]

-- The edges that lead from a block to `v`.
abbrev pub row : List (List ℕ) → ℕ → List ℕ
row [] u = []
row (r ∷ e) zero = r
row (r ∷ e) (suc u) = row e u

-- The edges to `v` from the blocks below `n` that are not in `done`.
abbrev pub pending : ℕ → List (List ℕ) → List ℕ → ℕ → ℕ
pending zero e done v = 0
pending (suc n) e done v = (if count n done == 0 then count v (row e n) else 0) + pending n e done v

pending-same :
    (n : ℕ) (e : List (List ℕ)) (done : List ℕ) (top v : ℕ)
    → n ≤ top
    → pending n e (done ++ top ∷ []) v ≡ pending n e done v
pending-same zero e done top v le = refl
pending-same (suc n) e done top v le =
    let more = count-append n done (top ∷ []) in
    let differs : (top == n) ≡ false = ground arith in
    let same : count n (done ++ top ∷ []) ≡ count n done = ground (arith, more) in
    rw (same, pending-same n e done top v (omega (arith, le)))

-- One more visited block takes its edges with it.
pub pending-visit :
    (n : ℕ) (e : List (List ℕ)) (done : List ℕ) (top v : ℕ)
    → top < n
    → count top done ≡ 0
    → pending n e done v ≡ count v (row e top) + pending n e (done ++ top ∷ []) v
pending-visit zero e done top v lt new = elim lt [ ]
pending-visit (suc n) e done top v lt new = elim (Bool-cases (top == n)) [
  | inl same ↦
      let t_n : top ≡ n = (==_iff top n).0 same in
      let more = count-append n done (top ∷ []) in
      let was : count n done ≡ 0 = ap (λ z. count z done) (sym t_n) ∙ new in
      let now : (count n (done ++ top ∷ []) == 0) ≡ false = ground (arith, more, was, same) in
      let rest = pending-same n e done top v (omega (arith, t_n)) in
      let edges : count v (row e top) ≡ count v (row e n) = ap (λ z. count v (row e z)) t_n in
      rw (was, now) (omega (arith, rest, edges))
  | inr other ↦
      let more = count-append n done (top ∷ []) in
      let same : count n (done ++ top ∷ []) ≡ count n done = ground (arith, more, other) in
      let rec = pending-visit n e done top v (ground (arith, lt, other)) new in
      rw same (omega (arith, rec))
]

-- No pending edge means no edge from a block that is not visited.
pub pending-zero :
    (n : ℕ) (e : List (List ℕ)) (done : List ℕ) (v u : ℕ)
    → pending n e done v ≡ 0
    → u < n
    → 0 < count v (row e u)
    → 0 < count u done
pending-zero zero e done v u h lt edge = elim lt [ ]
pending-zero (suc n) e done v u h lt edge = elim (Bool-cases (u == n)) [
  | inl same ↦
      let u_n : u ≡ n = (==_iff u n).0 same in
      let edge' : 0 < count v (row e n) = subst (λ z. 0 < count v (row e z)) u_n edge in
      subst (λ z. 0 < count z done) (sym u_n) (ground (arith, h, edge'))
  | inr other ↦ pending-zero n e done v u (ground (arith, h)) (ground (arith, lt)) edge
]
