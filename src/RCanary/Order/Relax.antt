-- ===== src/RCanary/Order/Relax.antt =====
-- The levels and the heap while the edges of a visited block are taken away.
use rapx_log.Prelude.{
  ℕ, zero, suc, ◌+◌, ◌≤◌, ◌<◌, ◌≡◌, refl, sym, ap, subst, ◌∙◌, inl, inr, ◌==◌, ==_iff, false,
  Bool-cases, if◌then◌else◌, some, List, [], ◌∷◌, length, get_elem?, set, get_elem?-set_ne,
  get_elem?-set_self, length-set, ok, arith,
}
use native.Mathlib.Decide.{ℕ_discrete}
use rapx_log.RCanary.Order.{relax}
use rapx_log.RCanary.Order.Counts.{count}

-- The level of each block below `n`, with the edges `ks` of the visited block still to go.
pub record Levels (n : ℕ) (ks : List ℕ) (f : ℕ → ℕ) (lev : List ℕ) : Type 0 where
  pub size : length lev ≡ n
  pub level : (v : ℕ) → v < n → get_elem? lev v ≡ some (count v ks + f v)

-- No block is twice on the heap or in the order, those that are there have level 0, and of those that
-- some edge leads to, all that have level 0 are there.
pub record Queue (n : ℕ) (deg : ℕ → ℕ) (ks : List ℕ) (f : ℕ → ℕ) (q done : List ℕ) : Type 0 where
  pub once : (x : ℕ) → count x q + count x done ≤ 1
  pub ready : (x : ℕ) → 0 < count x q + count x done → (x < n) × (count x ks + f x ≡ 0)
  pub none_missed :
      (x : ℕ) → x < n → 0 < deg x → count x ks + f x ≡ 0 → 0 < count x q + count x done

pub zero_of : (m : ℕ) → (0 < m → ⊥) → m ≡ 0
zero_of zero h = refl
zero_of (suc m) h = absurd (h (omega arith))

-- One edge less to a block, which goes on the heap if it was the last.
module _ (n k : ℕ) (deg : ℕ → ℕ) (ks : List ℕ) (f : ℕ → ℕ) (q done : List ℕ) (lt : k < n)
    (queue : Queue n deg (k ∷ ks) f q done) where
  absent : count k q + count k done ≡ 0
  absent =
      zero_of _ (λ there. (let (lt', none_left) = queue.ready k there in ground (arith, none_left)))

  Queue-wait : 0 < count k ks + f k → Queue n deg ks f q done
  Queue-wait more = record {
    once = queue.once;
    ready =
        λ x there. let (lt', none_left) = queue.ready x there in (lt', ground (arith, none_left));
    none_missed = λ x lt' deg_x last. elim (Bool-cases (k == x)) [
      | inl same ↦
          let more' : 0 < count x ks + f x =
            subst (λ z. 0 < count z ks + f z) ((==_iff k x).0 same) more in
          absurd (omega (arith, more', last))
      | inr other ↦ queue.none_missed x lt' deg_x (rw other (omega (arith, last)))
    ];
  }

  Queue-push : count k ks + f k ≡ 0 → Queue n deg ks f (k ∷ q) done
  Queue-push last = record {
    once = λ x. elim (Bool-cases (k == x)) [
      | inl same ↦
          let gone : count x q + count x done ≡ 0 =
            subst (λ z. count z q + count z done ≡ 0) ((==_iff k x).0 same) absent in
          rw same (omega (arith, gone))
      | inr other ↦ rw other (omega (arith, queue.once x))
    ];
    ready = λ x there. elim (Bool-cases (k == x)) [
      | inl same ↦
          let e = (==_iff k x).0 same in
          (subst (λ z. z < n) e lt, subst (λ z. count z ks + f z ≡ 0) e last)
      | inr other ↦
          let there' : 0 < count x q + count x done = ground (arith, there, other) in
          let (lt', none_left) = queue.ready x there' in (lt', ground (arith, none_left))
    ];
    none_missed = λ x lt' deg_x last'. elim (Bool-cases (k == x)) [
      | inl same ↦ rw same (omega arith)
      | inr other ↦
          let old = queue.none_missed x lt' deg_x (rw other (omega (arith, last'))) in
          rw other (omega (arith, old))
    ];
  }

  Queue-relax : (l : ℕ) → l ≡ count k ks + f k → Queue n deg ks f (if l == 0 then k ∷ q else q) done
  Queue-relax zero e = Queue-push (sym e)
  Queue-relax (suc l) e =
      let more : (suc l == 0) ≡ false = ground arith in rw more (Queue-wait (omega (arith, e)))

pub relax-Levels :
    (n : ℕ) (deg : ℕ → ℕ) (ks : List ℕ) (f : ℕ → ℕ) (lev q done : List ℕ)
    → ((v : ℕ) → 0 < count v ks → v < n)
    → Levels n ks f lev
    → Queue n deg ks f q done
    → (lev' : List ℕ) × (q' : List ℕ) × (relax ks lev q ≡ ok (lev', q'))
      × Levels n [] f lev'
      × Queue n deg [] f q' done
unfolding relax
relax-Levels n deg [] f lev q done inside levels queue = (lev, q, refl, levels, queue)
relax-Levels n deg (k ∷ ks) f lev q done inside levels queue =
    let lt : k < n = inside k (ground arith) in
    let l = count k ks + f k in
    let at : get_elem? lev k ≡ some (suc l) = levels.level k lt ∙ ap some (ground arith) in
    let levels' : Levels n ks f (set lev k l) = record {
      size = length-set lev k l ∙ levels.size;
      level = λ v h. level' v h l refl;
    } in
    let (lev', q', run, a, b) =
      relax-Levels n deg ks f (set lev k l) (if l == 0 then k ∷ q else q) done
        (λ v h. inside v (ground (arith, h))) levels'
        (Queue-relax n k deg ks f q done lt queue l refl) in
    (lev', q', rw at run, a, b)
  where
    level' :
        (v : ℕ)
        → v < n
        → (l : ℕ) → l ≡ count k ks + f k
        → get_elem? (set lev k l) v ≡ some (count v ks + f v)
    level' v h l e = elim (ℕ_discrete k v) [
      | yes same ↦
          let e_v : get_elem? (set lev k l) k ≡ some l =
            get_elem?-set_self lev k l (omega (arith, h, levels.size, same)) in
          subst (λ z. get_elem? (set lev k l) z ≡ some (count z ks + f z)) same (e_v ∙ ap some e)
      | no other ↦
          let differs : (k == v) ≡ false = ground arith in
          let same : count v (k ∷ ks) + f v ≡ count v ks + f v = ground (arith, differs) in
          get_elem?-set_ne lev k v l other ∙ levels.level v h ∙ ap some same
    ]
