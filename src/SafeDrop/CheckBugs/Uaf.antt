-- ===== src/SafeDrop/CheckBugs/Uaf.antt =====
-- What `uaf_check` reports.
use rapx_log.Prelude.{
  ℕ, ◌≡◌, sym, ◌∙◌, ◌≢◌, ◌⊎◌, inl, inr, ◌↔◌, ◌==◌, Bool, true, false, not, Bool-cases, some, List,
  get_elem?, lt_of_get_elem, ◌&&◌, ◌||◌, contains, contains-insert, insert, ok, arith,
}
use mathlib.Core.Bool.{false≢true}
use rapx_log.SafeDrop.State.{ValueNode, SafeDropGraph, is_ptr}
use rapx_log.SafeDrop.CheckBugs.{uaf_check}
use rapx_log.SafeDrop.CheckBugs.Edges.{IsWalkable, Hits}
use rapx_log.SafeDrop.CheckBugs.Dangling.{exist_dead-decides}

-- `uaf_check` of a value in range of a walkable graph returns and changes nothing but the records of
-- use after free. It adds the span exactly when the value may be dropped, it is not a pointer used
-- in an assignment from its own local, and a dead value can be reached from it.
pub uaf_check-reports :
    (g : SafeDropGraph) (i span local : ℕ) (is_func_call : Bool) (v : ValueNode)
    → IsWalkable g
    → get_elem? g.values i ≡ some v
    → (bugs : List ℕ) × (uaf_check i span local is_func_call g
        ≡ ok (tt, record g { bug_records = record g.bug_records { uaf_bugs = bugs } }))
      × ((x : ℕ)
          → (contains bugs x ≡ true) ↔ (
              (contains g.bug_records.uaf_bugs x ≡ true)
              ⊎ (x ≡ span)
                × (v.may_drop ≡ true)
                × ((is_ptr v.kind ≡ false) ⊎ ((v.local ≢ local) ⊎ (is_func_call ≡ true)))
                × Hits g false i))
unfolding uaf_check
uaf_check-reports g i span local is_func_call v walkable e =
    let (b, s, run, iff) = exist_dead-decides g false walkable i (lt_of_get_elem g.values i e) in
    elim (Bool-cases gate) [
      | inl open_ ↦ elim (Bool-cases b) [
        | inl found ↦ (
          insert g.bug_records.uaf_bugs span,
          rw (e, uaf_check, open_, run, found),
          λ x. added x (iff.0 found) open_,
        )
        | inr none_ ↦ (
          g.bug_records.uaf_bugs,
          rw (e, uaf_check, open_, run, none_),
          λ x. kept x (λ hits. false≢true (sym none_ ∙ iff.1 hits)),
        )
      ]
      | inr shut ↦ (g.bug_records.uaf_bugs, rw (e, uaf_check, shut), λ x. blocked x shut)
    ]
  where
    gate : Bool
    gate = v.may_drop && (not (is_ptr v.kind) || (not (v.local == local) || is_func_call))

    Cause : Type 0
    Cause =
        (v.may_drop ≡ true)
        × ((is_ptr v.kind ≡ false) ⊎ ((v.local ≢ local) ⊎ (is_func_call ≡ true)))

    gate_iff : (gate ≡ true) ↔ Cause
    gate_iff = ground arith

    added :
        (x : ℕ)
        → Hits g false i
        → gate ≡ true
        → (contains (insert g.bug_records.uaf_bugs span) x ≡ true) ↔ (
            (contains g.bug_records.uaf_bugs x ≡ true)
            ⊎ (x ≡ span)
              × (v.may_drop ≡ true)
              × ((is_ptr v.kind ≡ false) ⊎ ((v.local ≢ local) ⊎ (is_func_call ≡ true)))
              × Hits g false i)
    added x hits open_ =
        let set_iff = contains-insert g.bug_records.uaf_bugs span x in
        let (may, cause) = gate_iff.0 open_ in
        (
          λ h. elim (set_iff.0 h) [ inl old ↦ inl old | inr new ↦ inr (new, may, cause, hits) ],
          λ h. set_iff.1 (elim h [ inl old ↦ inl old | inr (new, may, cause, hits) ↦ inr new ]),
        )

    kept :
        (x : ℕ)
        → ¬ Hits g false i
        → (contains g.bug_records.uaf_bugs x ≡ true) ↔ (
            (contains g.bug_records.uaf_bugs x ≡ true)
            ⊎ (x ≡ span)
              × (v.may_drop ≡ true)
              × ((is_ptr v.kind ≡ false) ⊎ ((v.local ≢ local) ⊎ (is_func_call ≡ true)))
              × Hits g false i)
    kept x none_ =
        (λ h. inl h, elim [ inl old ↦ old | inr (new, may, cause, hits) ↦ absurd (none_ hits) ])

    blocked :
        (x : ℕ)
        → gate ≡ false
        → (contains g.bug_records.uaf_bugs x ≡ true) ↔ (
            (contains g.bug_records.uaf_bugs x ≡ true)
            ⊎ (x ≡ span)
              × (v.may_drop ≡ true)
              × ((is_ptr v.kind ≡ false) ⊎ ((v.local ≢ local) ⊎ (is_func_call ≡ true)))
              × Hits g false i)
    blocked x shut = (
      λ h. inl h,
      elim [
        | inl old ↦ old
        | inr (new, may, cause, hits) ↦ absurd (false≢true (sym shut ∙ gate_iff.1 (may, cause)))
      ],
    )
