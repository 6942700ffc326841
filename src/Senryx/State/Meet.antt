-- ===== src/Senryx/State/Meet.antt =====
-- What a merge of two items does to the alignment states.
use rapx_log.Prelude.{
  ◌≡◌, refl, ap, ◌∙◌, inl, inr, Bool, true, false, ◌||◌, Bool-cases, Option-cases, none, some, List,
  [], ◌∷◌, ◌++◌, exists, All, arith,
}
use rapx_log.Senryx.Align
use rapx_log.Senryx.Align.{AlignState}
use rapx_log.Senryx.State.{
  StateType, allocated_state, align_state, state_type_eq, insert_state, find_state, merge_state,
  meet_states, meet_state_item, AbstractStateItem,
}

abbrev pub is_align : StateType → Bool
is_align (align_state _) = true
is_align (allocated_state _) = false

abbrev pub has_align : List StateType → Bool
has_align = exists is_align

-- Every alignment state of the list is `t`.
abbrev pub OnlyAlign : AlignState → List StateType → Type 0
OnlyAlign t = All (λ s. is_align s ≡ true → s ≡ align_state t)

All-concat {ℓ κ} :
    {A : Type ℓ} (P : A → Type κ) (xs : List A) (x : A) → All P xs → P x → All P (xs ++ x ∷ [])
All-concat P [] x h p = (p, tt)
All-concat P (y ∷ ys) x h p = (h.0, All-concat P ys x h.1 p)

OnlyAlign-insert :
    (t : AlignState) (acc : List StateType) (x : StateType)
    → OnlyAlign t acc
    → (is_align x ≡ true → x ≡ align_state t)
    → OnlyAlign t (insert_state acc x)
OnlyAlign-insert t acc x h p = elim (Bool-cases (exists (state_type_eq x) acc)) [
  | inl old ↦ rw old h
  | inr new ↦ rw new (All-concat (λ s. is_align s ≡ true → s ≡ align_state t) acc x h p)
]

has_align-concat :
    (xs : List StateType) (x : StateType) → has_align (xs ++ x ∷ []) ≡ (has_align xs || is_align x)
has_align-concat [] x = ground arith
has_align-concat (y ∷ ys) x = ground (arith, has_align-concat ys x)

has_align_of_eq :
    (a : AlignState) (xs : List StateType)
    → exists (state_type_eq (align_state a)) xs ≡ true
    → has_align xs ≡ true
unfolding state_type_eq
has_align_of_eq a [] h = h
has_align_of_eq a (align_state b ∷ xs) h = refl
has_align_of_eq a (allocated_state b ∷ xs) h = has_align_of_eq a xs h

has_align-insert :
    (acc : List StateType) (x : StateType)
    → has_align (insert_state acc x) ≡ (has_align acc || is_align x)
has_align-insert acc (allocated_state a) = ground (arith, has_align-concat acc (allocated_state a))
has_align-insert acc (align_state a) =
    ground (arith, has_align-concat acc (align_state a), has_align_of_eq a acc)

find_state-align :
    (a b : AlignState) (xs : List StateType)
    → find_state (align_state a) xs ≡ find_state (align_state b) xs
find_state-align a b [] = refl
find_state-align a b (align_state c ∷ xs) = refl
find_state-align a b (allocated_state c ∷ xs) = find_state-align a b xs

find_state-allocated :
    (a : _) (xs : List StateType) (b : AlignState)
    → merge_state (allocated_state a) (find_state (allocated_state a) xs) ≡ some (align_state b)
    → ⊥
unfolding merge_state
find_state-allocated a [] b h = cc
find_state-allocated a (allocated_state c ∷ xs) b h = cc
find_state-allocated a (align_state c ∷ xs) b h = find_state-allocated a xs b h

-- What one round of the loop adds, with an alignment state `t` in the other item.
module _ (other : List StateType) (t : AlignState)
    (found : find_state (align_state t) other ≡ some (align_state t)) where
  round : StateType → List StateType → List StateType
  round s acc = elim (merge_state s (find_state s other)) [
    | none ↦ acc
    | some merged ↦ insert_state acc merged
  ]

  round-OnlyAlign :
      (s : StateType) (acc : List StateType) → OnlyAlign t acc → OnlyAlign t (round s acc)
  unfolding round merge_state Align.meet
  round-OnlyAlign (align_state a) acc h =
      rw (find_state-align a t other ∙ found, round)
        (OnlyAlign-insert t acc (align_state t) h (λ _. refl))
  round-OnlyAlign (allocated_state a) acc h =
      elim (Option-cases (merge_state (allocated_state a) (find_state (allocated_state a) other))) [
        | inl e ↦ rw (e, round) h
        | inr (x, e) ↦ rw (e, round) (OnlyAlign-insert t acc x h (not_align x e))
      ]
    where
      not_align :
          (x : StateType)
          → merge_state (allocated_state a) (find_state (allocated_state a) other) ≡ some x
          → is_align x ≡ true
          → x ≡ align_state t
      not_align (align_state b) e h = absurd (find_state-allocated a other b e)
      not_align (allocated_state b) e h = cc

  round-has_align :
      (s : StateType) (acc : List StateType)
      → has_align (round s acc) ≡ (has_align acc || is_align s)
  unfolding round merge_state Align.meet
  round-has_align (align_state a) acc =
      rw (find_state-align a t other ∙ found, round) (has_align-insert acc (align_state t))
  round-has_align (allocated_state a) acc =
      elim (Option-cases (merge_state (allocated_state a) (find_state (allocated_state a) other))) [
        | inl e ↦ rw (e, round) (ground arith)
        | inr (x, e) ↦
            rw (e, round) (has_align-insert acc x ∙ ap (λ b. has_align acc || b) (not_align x e))
      ]
    where
      not_align :
          (x : StateType)
          → merge_state (allocated_state a) (find_state (allocated_state a) other) ≡ some x
          → is_align x ≡ false
      not_align (align_state b) e = absurd (find_state-allocated a other b e)
      not_align (allocated_state b) e = refl

  pub meet_states-OnlyAlign :
      (states acc : List StateType) → OnlyAlign t acc → OnlyAlign t (meet_states other states acc)
  unfolding meet_states round
  meet_states-OnlyAlign [] acc h = h
  meet_states-OnlyAlign (s ∷ states) acc h =
      meet_states-OnlyAlign states (round s acc) (round-OnlyAlign s acc h)

  pub meet_states-has_align :
      (states acc : List StateType)
      → has_align (meet_states other states acc) ≡ (has_align acc || has_align states)
  unfolding meet_states round
  meet_states-has_align [] acc = ground arith
  meet_states-has_align (s ∷ states) acc =
      ground (arith, meet_states-has_align states (round s acc), round-has_align s acc)

  -- The merged item has an alignment state exactly if the first item has one, and it is always
  -- that of the second item.
  pub meet_state_item-align :
      (self item : AbstractStateItem)
      → item.state ≡ other
      → OnlyAlign t (meet_state_item self item).state
        × (has_align (meet_state_item self item).state ≡ has_align self.state)
  unfolding meet_state_item
  meet_state_item-align self item e =
      rw e (meet_states-OnlyAlign self.state [] tt, meet_states-has_align self.state [])
