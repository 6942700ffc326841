-- ===== src/SafeDrop/Component/Walk.antt =====
-- The walk through a component ends.
use rapx_log.Prelude.{
  ℕ, zero, suc, ◌+◌, ◌≤◌, ◌<◌, ◌≡◌, refl, sym, ◌∙◌, ap, ◌⊎◌, inl, inr, ◌==◌, true, false, not, ◌&&◌,
  if◌then◌else◌, Bool-cases, List, [], ◌∷◌, ◌++◌, length, contains, contains-concat, All, Outcome,
  ok, arith,
}
use rapx_log.Mir.{SwitchTargets}
use rapx_log.SafeDrop.State.{BlockNode}
use rapx_log.SafeDrop.Component.{next_under, insert_all, Work, push_new, work_loop}

-- How many blocks of the component have not been on the work list.
abbrev pub remaining : List ℕ → List ℕ → ℕ
remaining [] seen = 0
remaining (b ∷ bs) seen = (if contains seen b then 0 else 1) + remaining bs seen

remaining-le : (bs seen : List ℕ) (n : ℕ) → remaining bs (seen ++ n ∷ []) ≤ remaining bs seen
remaining-le [] seen n = omega arith
remaining-le (b ∷ bs) seen n = ground (arith, contains-concat seen n b, remaining-le bs seen n)

remaining-lt :
    (bs seen : List ℕ) (n : ℕ)
    → contains bs n ≡ true
    → contains seen n ≡ false
    → remaining bs (seen ++ n ∷ []) < remaining bs seen
remaining-lt [] seen n h k = cc
remaining-lt (b ∷ bs) seen n h k = elim (Bool-cases (b == n)) [
  | inl same ↦ ground (arith, contains-concat seen n b, remaining-le bs seen n)
  | inr other ↦ ground (arith, contains-concat seen n b, remaining-lt bs seen n (rw other at h) k)
]

pub remaining-length : (bs seen : List ℕ) → remaining bs seen ≤ length bs
remaining-length [] seen = omega arith
remaining-length (b ∷ bs) seen = ground (arith, remaining-length bs seen)

list_cases {ℓ} : {A : Type ℓ} (xs : List A) → (xs ≡ []) ⊎ ((x : A) × (ys : List A) × (xs ≡ x ∷ ys))
list_cases [] = inl refl
list_cases (x ∷ xs) = inr (x, xs, refl)

module _ (node : ℕ → Outcome BlockNode) (scc : List ℕ)
    (known : (i : ℕ) → contains scc i ≡ true → (b : BlockNode) × (node i ≡ ok b)) where
  -- Every block on the list is there.
  abbrev pub Known : List ℕ → Type 0
  Known is = All (λ i. (b : BlockNode) × (node i ≡ ok b)) is

  push_new-Known :
      (w : Work) (ns : List ℕ) → Known w.work_list → Known (push_new scc w ns).work_list
  push_new-Known w [] k = k
  push_new-Known w (n ∷ ns) k = elim (Bool-cases (contains scc n && not (contains w.work_set n))) [
    | inl new_one ↦
        let w' : Work = record w { work_list = n ∷ w.work_list; work_set = w.work_set ++ n ∷ [] } in
        rw (new_one, push_new) (push_new-Known w' ns (known n (ground arith), k))
    | inr old ↦ rw (old, push_new) (push_new-Known w ns k)
  ]

  push_new-le :
      (w : Work) (ns : List ℕ)
      → length (push_new scc w ns).work_list + remaining scc (push_new scc w ns).work_set
        ≤ length w.work_list + remaining scc w.work_set
  push_new-le w [] = omega arith
  push_new-le w (n ∷ ns) = elim (Bool-cases (contains scc n && not (contains w.work_set n))) [
    | inl new_one ↦
        let w' : Work = record w { work_list = n ∷ w.work_list; work_set = w.work_set ++ n ∷ [] } in
        let less = remaining-lt scc w.work_set n (ground arith) (ground arith) in
        rw (new_one, push_new) (omega (arith, push_new-le w' ns, less))
    | inr old ↦ rw (old, push_new) (push_new-le w ns)
  ]

  work_loop-step :
      (fuel : ℕ) (cur_targets : SwitchTargets) (enum_index : ℕ) (w : Work) (current : ℕ)
      (rest : List ℕ) (b : BlockNode)
      → w.work_list ≡ current ∷ rest
      → node current ≡ ok b
      → work_loop (suc fuel) node cur_targets enum_index scc w
        ≡ work_loop fuel node cur_targets enum_index scc (
            push_new scc
              (record w {
                work_list = rest;
                sub_blocks = w.sub_blocks ++ current ∷ [];
                next = insert_all w.next (next_under cur_targets enum_index b);
              })
              (next_under cur_targets enum_index b))
  unfolding work_loop
  work_loop-step fuel cur_targets enum_index w current rest b e there =
      rw (e, work_loop) (rw (there, work_loop) refl)

  -- If every block of the component and of the work list is there, the loop returns as soon as its
  -- fuel is greater than the number of blocks on the work list and of those that have not been on it.
  pub work_loop-returns :
      (fuel : ℕ) (cur_targets : SwitchTargets) (enum_index : ℕ) (w : Work)
      → Known w.work_list
      → length w.work_list + remaining scc w.work_set < fuel
      → (w' : Work) × (work_loop fuel node cur_targets enum_index scc w ≡ ok w')
        × (w'.work_list ≡ [])
  unfolding work_loop
  work_loop-returns zero cur_targets enum_index w k lt = elim lt [ ]
  work_loop-returns (suc fuel) cur_targets enum_index w k lt = elim (list_cases w.work_list) [
    | inl none_left ↦ (w, rw none_left, none_left)
    | inr (current, rest, e) ↦
        let k' : Known (current ∷ rest) = rw e at k in
        let (b, there) = k'.0 in
        let w' : Work = record w {
          work_list = rest;
          sub_blocks = w.sub_blocks ++ current ∷ [];
          next = insert_all w.next (next_under cur_targets enum_index b);
        } in
        let nexts = next_under cur_targets enum_index b in
        let shorter : suc (length rest) ≡ length w.work_list = ap length (sym e) in
        let (r, run, done) =
          work_loop-returns fuel cur_targets enum_index (push_new scc w' nexts)
            (push_new-Known w' nexts k'.1) (omega (arith, push_new-le w' nexts, shorter)) in
        (r, work_loop-step fuel cur_targets enum_index w current rest b e there ∙ run, done)
  ]

  -- The fuel that the walk has, two rounds more than the component has blocks, is enough: from a first
  -- block that is there the loop returns with nothing left on its list, whatever the branches are, if
  -- every block of the component is there.
  pub work_loop-enough :
      (cur_targets : SwitchTargets) (enum_index bb_index : ℕ) (sub_blocks next : List ℕ)
      (b : BlockNode)
      → node bb_index ≡ ok b
      → (w : Work) × (work_loop (suc (suc (length scc))) node cur_targets enum_index scc (record {
        work_list = bb_index ∷ [];
        work_set = bb_index ∷ [];
        sub_blocks = sub_blocks;
        next = next;
      })
          ≡ ok w)
        × (w.work_list ≡ [])
  work_loop-enough cur_targets enum_index bb_index sub_blocks next b there =
      work_loop-returns (suc (suc (length scc))) cur_targets enum_index _ ((b, there), tt)
        (omega (arith, remaining-length scc (bb_index ∷ [])))
