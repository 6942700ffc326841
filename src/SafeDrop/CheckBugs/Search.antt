-- ===== src/SafeDrop/CheckBugs/Search.antt =====
-- The parts of a search, and what each of them leaves.
use rapx_log.Prelude.{
  ℕ, zero, suc, ◌+◌, ◌≤◌, ◌<◌, ◌≡◌, refl, sym, ◌∙◌, ap, subst, ◌⊎◌, inl, inr, ◌==◌, ==_iff, Bool,
  true, false, Bool-cases, List, [], ◌∷◌, length, contains, Outcome, ok, Within, unseen, unseen-le,
  arith,
}
use mathlib.Core.Bool.{false≢true}
use mathlib.Core.List.{Memᴰ}
use mathlib.Core.List.Memᴰ
use native.Mathlib.Decide.{ℕ_discrete}
use rapx_log.SafeDrop.UnionFind.Roots.{IsForest, Root, union_find-Root, union_is_same-Root}
use rapx_log.SafeDrop.State.{SafeDropGraph}
use rapx_log.SafeDrop.CheckBugs.{Visit, or_visit, visit_new, visit_fields, visit_aliases}
use rapx_log.SafeDrop.CheckBugs.Edges.{Edge, IsTarget}

module _ (g : SafeDropGraph) (dangling : Bool) where
  -- What a search that finds nothing leaves: nothing is forgotten, no new node is a target, and
  -- every step from a new node leads to a node that has been seen.
  pub record Post (r s : List ℕ) : Type 0 where
    pub grows : Within r s
    pub clean : (x : ℕ) → contains s x ≡ true → contains r x ≡ false → ¬ IsTarget g dangling x
    pub closed :
        (x y : ℕ) → contains s x ≡ true → contains r x ≡ false → Edge g x y → contains s y ≡ true

  pub Post-refl : (r : List ℕ) → Post r r
  Post-refl r = record { grows = λ x h. h; clean = λ x h k. cc; closed = λ x y h k. cc }

  pub Post-trans : {r s t : List ℕ} → Post r s → Post s t → Post r t
  Post-trans {r} {s} {t} p q = record {
    grows = λ x h. q.grows x (p.grows x h);
    clean = λ x h k. elim (Bool-cases (contains s x)) [
      | inl old ↦ p.clean x old k
      | inr new ↦ q.clean x h new
    ];
    closed = λ x y h k e. elim (Bool-cases (contains s x)) [
      | inl old ↦ q.grows y (p.closed x y old k e)
      | inr new ↦ q.closed x y h new e
    ];
  }

  -- A search from the set `r` returns: with a hit, or with all that it must see and no target.
  pub data Good (r : List ℕ) (Must : ℕ → Type 0) (Hit : Type 0) (o : Outcome (Bool × List ℕ))
      : Type 0 where
    hit : (s : List ℕ) → o ≡ ok (true, s) → Hit → Good r Must Hit o
    clear :
        (s : List ℕ)
        → o ≡ ok (false, s)
        → Post r s
        → ((x : ℕ) → Must x → contains s x ≡ true)
        → Good r Must Hit o

  pub or_visit-Good :
      {M N : ℕ → Type 0} {H : Type 0} (v w : Visit) (r : List ℕ)
      → Good r M H (v r)
      → ((s : List ℕ) → Post r s → Good s N H (w s))
      → Good r (λ x. M x ⊎ N x) H (or_visit v w r)
  or_visit-Good v w r (hit s e h) next = hit s (rw (e, or_visit)) h
  or_visit-Good v w r (clear s e p m) next = elim (next s p) [
    | hit t f h ↦ hit t (rw (e, or_visit) f) h
    | clear t f q n ↦
        clear t (rw (e, or_visit) f) (Post-trans p q)
          (λ x. elim [ inl a ↦ q.grows x (m x a) | inr b ↦ n x b ])
  ]

  -- A weaker demand.
  Good-map :
      {M N : ℕ → Type 0} {H : Type 0} {r : List ℕ} {o : Outcome (Bool × List ℕ)}
      → ((x : ℕ) → N x → M x)
      → Good r M H o
      → Good r N H o
  Good-map f (hit s e h) = hit s e h
  Good-map f (clear s e p m) = clear s e p (λ x n. m x (f x n))

  -- `rec` is good at each node of `Into` that has not been seen, with this much left to see.
  unfoldable pub Rec : ℕ → (ℕ → Visit) → (ℕ → Type 0) → Type 0 → Type 0
  Rec fuel rec Into H =
      (j : ℕ) (s : List ℕ)
      → Into j
      → j < length g.values
      → contains s j ≡ false
      → unseen (length g.values) s ≤ fuel
      → Good s (λ x. x ≡ j) H (rec j s)

  module _ (fuel : ℕ) (rec : ℕ → Visit) (Into : ℕ → Type 0) (H : Type 0)
      (good : Rec fuel rec Into H) where
    visit_new-Good :
        (j : ℕ) (s : List ℕ)
        → Into j
        → j < length g.values
        → unseen (length g.values) s ≤ fuel
        → Good s (λ x. x ≡ j) H (visit_new rec j s)
    unfolding visit_new Rec
    visit_new-Good j s into lt left = elim (Bool-cases (contains s j)) [
      | inl old ↦ clear s (rw old) (Post-refl s) (λ x e. rw e old)
      | inr new ↦ rw new (good j s into lt new left)
    ]

    pub visit_fields-Good :
        (fs : List (ℕ × ℕ)) (s : List ℕ)
        → ((f : ℕ × ℕ) → Memᴰ f fs → Into f.1 × (f.1 < length g.values))
        → unseen (length g.values) s ≤ fuel
        → Good s (λ x. (idx : ℕ) × Memᴰ (idx, x) fs) H (visit_fields rec fs s)
    unfolding visit_fields
    visit_fields-Good [] s h left =
        clear s refl (Post-refl s) (λ x (idx, m). absurd (Memᴰ.not-nil m))
    visit_fields-Good ((idx, i) ∷ fs) s h left =
        let (into, lt) = h (idx, i) (Memᴰ.head refl) in
        Good-map
          (λ x (k, m). elim (Memᴰ.cases_cons m) [
            | inl e ↦ inl (ap (λ (p : ℕ × ℕ). p.1) e)
            | inr later ↦ inr (k, later)
          ])
          (or_visit-Good (visit_new rec i) (visit_fields rec fs) s (visit_new-Good i s into lt left)
            (λ t p.
              visit_fields-Good fs t (λ f m. h f (Memᴰ.tail m))
                (omega (arith, unseen-le (length g.values) s t p.grows))))

    module _ (a : List ℕ) (node : ℕ) (forest : IsForest a) (size : length a ≡ length g.values)
        (in_range : node < length a) (into : (j r : ℕ) → Root a j r → Root a node r → Into j) where
      -- Of one root with the node.
      abbrev pub Same : ℕ → Type 0
      Same x = (r : ℕ) × Root a x r × Root a node r

      abbrev pub AtOrAfter : ℕ → ℕ → Type 0
      AtOrAfter j x = (j ≤ x) × (x < length a) × Same x

      at_or_after : (j x : ℕ) → AtOrAfter j x → (x ≡ j) ⊎ AtOrAfter (j + 1) x
      at_or_after j x (ge, le, w) = elim (ℕ_discrete x j) [
        | yes e ↦ inl e
        | no ne ↦ inr (omega arith, le, w)
      ]

      Same-self : (j : ℕ) → j ≡ node → Same j
      Same-self j e =
          let (r, _, w) = union_find-Root a forest node in_range in
          (r, subst (λ k. Root a k r) (sym e) w, w)

      pub visit_aliases-Good :
          (left j : ℕ) (s : List ℕ)
          → j + left ≡ length a
          → unseen (length g.values) s ≤ fuel
          → Good s (AtOrAfter j) H (visit_aliases rec a node left j s)
      unfolding visit_aliases
      visit_aliases-Good zero j s total room =
          clear s refl (Post-refl s) (λ x (ge, lt, _). absurd (omega arith))
      visit_aliases-Good (suc left) j s total room =
          let lt : j < length a = omega arith in
          let next : (t : List ℕ)
              → Post s t
              → Good t (AtOrAfter (j + 1)) H (visit_aliases rec a node left (j + 1) t) =
            λ t p.
              visit_aliases-Good left (j + 1) t (omega arith)
                (omega (arith, unseen-le (length g.values) s t p.grows)) in
          let visit : Same j
              → Good s (AtOrAfter j) H
                  (or_visit (visit_new rec j) (visit_aliases rec a node left (j + 1)) s) =
            λ same. Good-map (at_or_after j) (
              or_visit-Good (visit_new rec j) (visit_aliases rec a node left (j + 1)) s
                (visit_new-Good j s (into j same.0 same.1 same.2) (omega arith) room) next) in
          let (b, run, iff) = union_is_same-Root a forest j node lt in_range in
          elim (Bool-cases (j == node)) [
            | inl self ↦ rw self (visit (Same-self j ((==_iff j node).0 self)))
            | inr other ↦ elim (Bool-cases b) [
              | inl same ↦ rw (other, run ∙ ap ok same) (visit (iff.0 same))
              | inr apart ↦
                  rw (other, run ∙ ap ok apart)
                    (Good-map
                      (λ x m. elim (at_or_after j x m) [
                        | inl e ↦ absurd (
                            false≢true (
                              sym apart
                              ∙ iff.1 (m.2.0, subst (λ k. Root a k m.2.0) e m.2.1, m.2.2)))
                        | inr later ↦ later
                      ])
                      (next s (Post-refl s)))
            ]
          ]
