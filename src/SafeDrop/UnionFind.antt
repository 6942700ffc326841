-- ===== src/SafeDrop/UnionFind.antt =====
-- The alias sets of safedrop/alias.rs: `alias_set[i]` is the parent of value `i`, and a value that
-- is its own parent is the root of its set. The `while` loop of `union_find` has one round for each
-- entry of the vector and one more as its fuel: a walk that takes longer has met a cycle.
pub mod Roots
pub mod Compress
pub mod Merge
pub mod Alone
pub mod Cycle
use package.rapx_log.Prelude.{
  ℕ, zero, suc, ◌+◌, ◌==◌, ltb, Bool, true, false, if◌then◌else◌, List, length, get_elem?, set,
  Outcome, ok, stuck, ◌>>=◌, or_panic,
}

pub find_loop : ℕ → List ℕ → ℕ → Outcome ℕ
find_loop zero alias_set r = stuck
find_loop (suc fuel) alias_set r = do
  parent ← or_panic (get_elem? alias_set r)
  let rest = find_loop fuel alias_set parent
  if parent == r then ok r else rest

unfoldable pub union_find : List ℕ → ℕ → Outcome ℕ
unfolding find_loop
union_find alias_set e = find_loop (suc (length alias_set)) alias_set e

-- The `for member` loop of `union_merge`, with `left` members to go.
pub compress : ℕ → ℕ → List ℕ → Outcome (List ℕ)
unfolding union_find
compress zero member alias_set = ok alias_set
compress (suc left) member alias_set = do
  parent ← or_panic (get_elem? alias_set member)
  root ← union_find alias_set parent
  compress left (member + 1) (set alias_set member root)

-- The two assignments under `f1 < f2` and `f1 > f2`.
pub link : List ℕ → ℕ → ℕ → List ℕ
link alias_set f1 f2 =
    let alias_set' = if ltb f1 f2 then set alias_set f2 f1 else alias_set in
    if ltb f2 f1 then set alias_set' f1 f2 else alias_set'

unfoldable pub union_merge : List ℕ → ℕ → ℕ → Outcome (List ℕ)
unfolding compress link
union_merge alias_set e1 e2 = do
  f1 ← union_find alias_set e1
  f2 ← union_find alias_set e2
  compress (length alias_set) 0 (link alias_set f1 f2)

unfoldable pub union_is_same : List ℕ → ℕ → ℕ → Outcome Bool
unfolding union_find
union_is_same alias_set e1 e2 = do
  f1 ← union_find alias_set e1
  f2 ← union_find alias_set e2
  ok (f1 == f2)

-- The loop of `union_has_alias` from `i`, with `left` indices to go.
pub has_alias_from : List ℕ → ℕ → ℕ → ℕ → Outcome Bool
unfolding union_is_same
has_alias_from alias_set e zero i = ok false
has_alias_from alias_set e (suc left) i =
    let rest = has_alias_from alias_set e left (i + 1) in
    if i == e
    then rest
    else (union_is_same alias_set e i >>= λ same. if same then ok true else rest)

unfoldable pub union_has_alias : List ℕ → ℕ → Outcome Bool
unfolding has_alias_from
union_has_alias alias_set e = has_alias_from alias_set e (length alias_set) 0
