-- ===== src/SafeDrop/CheckBugs/Drops.antt =====
-- What a drop does to the graph, and how much there is left to drop.
use rapx_log.Prelude.{
  lt_of_get_elem, ℕ, zero, suc, as_isize, ltb_ℤ, ◌≤◌, ◌<◌, ◌≡◌, refl, sym, ◌∙◌, ap, ◌⊎◌, inl, inr,
  Bool, true, false, not, ◌&&◌, Bool-cases, some, List, [], ◌∷◌, length, length-set, get_elem?,
  get_elem?-some, get_elem?-set_self, get_elem?-set_ne, set, put, contains_key, ok, arith,
}
use native.Mathlib.Decide.{ℕ_discrete}
use rapx_log.SafeDrop.State.{ValueNode, dead, is_alive, BugRecords, SafeDropGraph, M, and_then}
use rapx_log.SafeDrop.CheckBugs.{df_check, kill}
use rapx_log.SafeDrop.Nodes.Projection.{IsSound}
use rapx_log.SafeDrop.Nodes.Births.{set-AreNodes}

-- How many entries of the record of the dead are not set.
abbrev pub undead : List Bool → ℕ
undead [] = 0
undead (true ∷ bs) = undead bs
undead (false ∷ bs) = suc (undead bs)

pub undead-set :
    (bs : List Bool) (i : ℕ)
    → get_elem? bs i ≡ some false
    → suc (undead (set bs i true)) ≡ undead bs
undead-set [] i e = cc
undead-set (true ∷ bs) zero e = cc
undead-set (false ∷ bs) zero e = refl
undead-set (true ∷ bs) (suc i) e = undead-set bs i e
undead-set (false ∷ bs) (suc i) e = ap suc (undead-set bs i e)

pub undead-le : (bs : List Bool) → undead bs ≤ length bs
undead-le [] = omega arith
undead-le (true ∷ bs) = omega (arith, undead-le bs)
undead-le (false ∷ bs) = omega (arith, undead-le bs)

-- Behind the run the graph is sound and has the same nodes and aliases. Each node is as it was, or it
-- may be dropped, was born before the drop, and is dead; and nothing is taken from the record of the
-- dead.
pub record Dropped (birth : ℕ) (g h : SafeDropGraph) : Type 0 where
  pub sound : IsSound h
  pub size : length h.values ≡ length g.values
  pub aliases : h.alias_set ≡ g.alias_set
  pub left : undead h.dead_record ≤ undead g.dead_record
  pub nodes :
      (i : ℕ) (v : ValueNode)
      → get_elem? g.values i ≡ some v
      → (get_elem? h.values i ≡ some v)
        ⊎ (get_elem? h.values i ≡ some (dead v))
          × (v.may_drop ≡ true)
          × (ltb_ℤ v.birth (as_isize birth) ≡ true)

pub Dropped-trans :
    (birth : ℕ) (g h k : SafeDropGraph) → Dropped birth g h → Dropped birth h k → Dropped birth g k
Dropped-trans birth g h k a b = record {
  sound = b.sound;
  size = b.size ∙ a.size;
  aliases = b.aliases ∙ a.aliases;
  left = omega (arith, a.left, b.left);
  nodes = λ i v e. elim (a.nodes i v e) [
    | inl same ↦ b.nodes i v same
    | inr (gone, may, older) ↦ elim (b.nodes i (dead v) gone) [
      | inl same ↦ inr (same, may, older)
      | inr (again, _, _) ↦ inr (again, may, older)
    ]
  ];
}

-- The run returns and has dropped no more than it may.
abbrev pub Drops : ℕ → M (Unit {0}) → SafeDropGraph → Type 0
Drops birth m g = (h : SafeDropGraph) × (m g ≡ ok (tt, h)) × Dropped birth g h

-- A change of the bug records and of the record of the dead alone.
pub Dropped-records :
    (birth : ℕ) (g : SafeDropGraph) (bugs : BugRecords) (record_ : List Bool)
    → IsSound g
    → length record_ ≡ length g.dead_record
    → undead record_ ≤ undead g.dead_record
    → Dropped birth g (record g { bug_records = bugs; dead_record = record_ })
Dropped-records birth g bugs record_ sound size left = record {
  sound = record {
    walk = record {
      size = sound.walk.size;
      forest = sound.walk.forest;
      fields = sound.walk.fields;
    };
    dead_size = size ∙ sound.dead_size;
  };
  size = refl;
  aliases = refl;
  left = left;
  nodes = λ i v e. inl e;
}

pub skip-Dropped : (birth : ℕ) (g : SafeDropGraph) → IsSound g → Dropped birth g g
skip-Dropped birth g sound =
    Dropped-records birth g g.bug_records g.dead_record sound refl (omega arith)

pub then-Drops :
    (birth : ℕ) (g : SafeDropGraph) (m next : M (Unit {0}))
    → Drops birth m g
    → ((h : SafeDropGraph) → Dropped birth g h → Drops birth next h)
    → Drops birth (λ g. and_then (m g) (λ _. next)) g
then-Drops birth g m next (h, run, d) rest =
    let (k, run', d') = rest h d in (k, rw run run', Dropped-trans birth g h k d d')

pub df_check-returns :
    (g : SafeDropGraph) (drop span : ℕ)
    → drop < length g.values
    → (b : Bool) × (bugs : BugRecords) × (df_check drop span g
        ≡ ok (b, record g { bug_records = bugs }))
unfolding df_check
df_check-returns g drop span lt =
    let (v, e) = get_elem?-some g.values drop lt in
    elim (Bool-cases (not (is_alive v) && not (contains_key g.bug_records.df_bugs v.local))) [
      | inl new_one ↦ (
        not (is_alive v),
        record g.bug_records { df_bugs = put g.bug_records.df_bugs v.local span },
        rw (e, new_one),
      )
      | inr known ↦ (not (is_alive v), g.bug_records, rw (e, known))
    ]

pub kill-Drops :
    (birth drop : ℕ) (g : SafeDropGraph)
    → IsSound g
    → drop < length g.values
    → Drops birth (kill drop birth) g
unfolding kill
kill-Drops birth drop g sound lt =
    let (v, e) = get_elem?-some g.values drop lt in
    elim (Bool-cases (ltb_ℤ v.birth (as_isize birth) && v.may_drop)) [
      | inr no_ ↦ (g, rw (e, no_), skip-Dropped birth g sound)
      | inl yes_ ↦ (
        record g { values = set g.values drop (dead v) },
        rw (e, yes_, e),
        record {
          sound = record {
            walk = record {
              size = sound.walk.size ∙ sym (length-set g.values drop (dead v));
              forest = sound.walk.forest;
              fields = set-AreNodes g.values drop v (dead v) sound.walk.fields e refl;
            };
            dead_size = sound.dead_size ∙ sym (length-set g.values drop (dead v));
          };
          size = length-set g.values drop (dead v);
          aliases = refl;
          left = omega arith;
          nodes = λ i w at_i. elim (ℕ_discrete drop i) [
            | yes same ↦
                (let eq : v ≡ w = ground arith in
                  inr (
                    ground (arith, get_elem?-set_self g.values drop (dead v) lt),
                    ground arith,
                    ground arith,
                  ))
            | no other ↦ inl (get_elem?-set_ne g.values drop i (dead v) other ∙ at_i)
          ];
        },
      )
    ]

-- A node that may be dropped and is older than the drop is dead behind `kill`.
pub kill-dies :
    (birth drop : ℕ) (g h : SafeDropGraph) (v : ValueNode)
    → kill drop birth g ≡ ok (tt, h)
    → get_elem? g.values drop ≡ some v
    → v.may_drop ≡ true
    → ltb_ℤ v.birth (as_isize birth) ≡ true
    → get_elem? h.values drop ≡ some (dead v)
unfolding kill
kill-dies birth drop g h v run e may older =
    let guard : (ltb_ℤ v.birth (as_isize birth) && v.may_drop) ≡ true = ground arith in
    let run' : kill drop birth g ≡ ok (tt, record g { values = set g.values drop (dead v) }) =
      rw (e, guard, e) refl in
    let same : ok (tt, record g { values = set g.values drop (dead v) }) ≡ ok (tt, h) =
      sym run' ∙ run in
    let values : set g.values drop (dead v) ≡ h.values = ground arith in
    rw (sym values) (get_elem?-set_self g.values drop (dead v) (lt_of_get_elem g.values drop e))
