-- ===== src/SafeDrop/Check/Paths.antt =====
-- The visits of a block's branches: the end of `check` of safedrop/safedrop.rs, which is `go_on`.
use rapx_log.Prelude.{
  ℕ, ◌%◌, ◌^◌, ◌≤◌, ◌<◌, ◌≡◌, ◌⊎◌, Option, none, some, List, [], ◌∷◌, ◌++◌, map, put, ok,
}
use rapx_log.SafeDrop.State.{SafeDropGraph, M, usize_max}
use rapx_log.SafeDrop.Check.{visit_limit, Choice, single, per_value, every}

-- A branch: its block, and the value that it fixes for a node.
pub data Branch : Type 0 where
  -- followed with the state as it is, which it may change
  in_place : ℕ → Branch
  -- visited apart, unless the limit of visits is passed
  limited : ℕ → Option (ℕ × ℕ) → Branch
  -- visited apart, always
  always : ℕ → Option (ℕ × ℕ) → Branch

abbrev pub target : Branch → ℕ
target (in_place n) = n
target (limited n fixes) = n
target (always n fixes) = n

abbrev pub fixed : Branch → Option (ℕ × ℕ)
fixed (in_place n) = none
fixed (limited n fixes) = fixes
fixed (always n fixes) = fixes

-- The branches that a choice means, in their order.
abbrev pub branches : List ℕ → Choice → List Branch
branches nexts (single n) = in_place n ∷ []
branches nexts (per_value id t) =
    map (λ (arm : ℕ × ℕ). limited arm.1 (some (id, arm.0 % 2 ^ 64))) t.targets
    ++ always t.otherwise (some (id, usize_max)) ∷ []
branches nexts every = map (λ n. limited n none) nexts

-- The state of the path is the same: values, constants, aliases and the record of the dead.
pub record SamePath (g h : SafeDropGraph) : Type 0 where
  pub values : h.values ≡ g.values
  pub constants : h.constants ≡ g.constants
  pub alias_set : h.alias_set ≡ g.alias_set
  pub dead_record : h.dead_record ≡ g.dead_record

-- What holds behind the branches. A single branch is followed in place.
abbrev pub Leaves : SafeDropGraph → Choice → SafeDropGraph → Type 0
Leaves g (single n) h = Unit {0}
Leaves g (per_value id t) h = SamePath g h
Leaves g every h = SamePath g h

module _ (check : ℕ → M (Unit {0})) (g : SafeDropGraph) where
  -- `k` with the state of the path of `g`; the rest, as the visits and the reports, is that of `k`.
  abbrev pub back : SafeDropGraph → SafeDropGraph
  back k = record k {
    values = g.values;
    constants = g.constants;
    alias_set = g.alias_set;
    dead_record = g.dead_record;
  }

  -- The same, with the value that a branch fixes.
  abbrev pub entry : Option (ℕ × ℕ) → SafeDropGraph → SafeDropGraph
  entry none k = back k
  entry (some (id, val)) k = record (back k) { constants = put g.constants id val }

  abbrev pub Entered : ℕ → Option (ℕ × ℕ) → SafeDropGraph → SafeDropGraph → Type 0
  Entered n fixes k h = (j : SafeDropGraph) × (check n (entry fixes k) ≡ ok (tt, j)) × (h ≡ back j)

  -- The visit of a branch, from `k` to `h`.
  abbrev pub Visit : Branch → SafeDropGraph → SafeDropGraph → Type 0
  Visit (in_place n) k h = check n k ≡ ok (tt, h)
  Visit (limited n fixes) k h =
      (visit_limit < k.visit_times) × (h ≡ k) ⊎ (k.visit_times ≤ visit_limit) × Entered n fixes k h
  Visit (always n fixes) k h = Entered n fixes k h

  -- One visit after the other.
  abbrev pub Visits : List Branch → SafeDropGraph → SafeDropGraph → Type 0
  Visits [] k h = h ≡ k
  Visits (b ∷ bs) k h = (i : SafeDropGraph) × Visit b k i × Visits bs i h

  -- `check` returns wherever the branch may be entered.
  abbrev pub IsEnterable : Branch → Type 0
  IsEnterable b =
      (k : SafeDropGraph)
      → (j : SafeDropGraph) × (check (target b) (entry (fixed b) k) ≡ ok (tt, j))

  -- A run from where the path is that of `g`, which takes the visits `R` and comes back to it.
  abbrev Runs : M (Unit {0}) → (SafeDropGraph → SafeDropGraph → Type 0) → SafeDropGraph → Type 0
  Runs m R k = (h : SafeDropGraph) × (m (back k) ≡ ok (tt, back h)) × R (back k) (back h)
