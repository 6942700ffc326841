-- ===== src/SafeDrop/CheckBugs/Edges.antt =====
-- What `exist_dead` walks: from a value to the values of its alias set and to its fields.
use rapx_log.Prelude.{ℕ, ◌<◌, ◌≡◌, some, length, get_elem?, Bool, true}
use mathlib.Core.List.{Memᴰ}
use rapx_log.SafeDrop.UnionFind.Roots.{IsForest, Root}
use rapx_log.SafeDrop.State.{ValueNode, SafeDropGraph}
use rapx_log.SafeDrop.CheckBugs.{is_target}

-- The graphs that the search is sound for: as many values as entries of the alias set, a forest, and
-- fields that are nodes.
pub record IsWalkable (g : SafeDropGraph) : Type 0 where
  pub size : length g.alias_set ≡ length g.values
  pub forest : IsForest g.alias_set
  pub fields :
      (i : ℕ) (v : ValueNode) (f : ℕ × ℕ)
      → get_elem? g.values i ≡ some v
      → Memᴰ f v.fields
      → f.1 < length g.values

-- One step of the search: to a value of one root with `i`, or to a field of `i`.
pub data Edge (g : SafeDropGraph) (i j : ℕ) : Type 0 where
  alias : (r : ℕ) → Root g.alias_set i r → Root g.alias_set j r → Edge g i j
  field :
      (v : ValueNode) (idx : ℕ)
      → get_elem? g.values i ≡ some v
      → Memᴰ (idx, j) v.fields
      → Edge g i j

pub data Reach (g : SafeDropGraph) (i : ℕ) : ℕ → Type 0 where
  here : Reach g i i
  step : {j k : ℕ} → Reach g i j → Edge g j k → Reach g i k

-- A node that the search looks for.
pub record IsTarget (g : SafeDropGraph) (dangling : Bool) (i : ℕ) : Type 0 where
  pub node : ValueNode
  pub found : get_elem? g.values i ≡ some node
  pub hit : is_target dangling node ≡ true

-- A node that the search looks for can be reached.
abbrev pub Hits : SafeDropGraph → Bool → ℕ → Type 0
Hits g dangling i = (t : ℕ) × Reach g i t × IsTarget g dangling t
