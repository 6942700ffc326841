-- ===== src/RCanary/Order.antt =====
-- The edges between the blocks of a body and their topological order (rcanary/ranalyzer/order.rs), on
-- the graph of rcanary/ranalyzer.rs. The heap is a list from which the greatest entry is taken. The
-- subtraction from a level is that of a build with overflow checks: below 0 it panics.
pub mod Counts
pub mod Relax
pub mod Topo
pub mod Collect
pub mod Whole
pub mod Cycles
use package.rapx_log.Prelude.{
  ℕ, zero, suc, ◌+◌, ◌==◌, ltb, if◌then◌else◌, List, [], ◌∷◌, ◌++◌, Option, none, some, length,
  get_elem?, set, Outcome, ok, panic, stuck, ◌>>=◌, or_panic,
}
use package.rapx_log.Mir.{
  SwitchTargets, TerminatorKind, goto, switch_int, unwind_resume, return, unwind_terminate,
  unreachable, drop, call, tail_call, assert, yield, false_edge, false_unwind, coroutine_drop,
  inline_asm,
}

pub record Graph : Type 0 where
  pub e : List (List ℕ)
  pub pre : List (List ℕ)
  pub topo : List ℕ

abbrev pub replicate {ℓ} : {A : Type ℓ} → ℕ → A → List A
replicate zero v = []
replicate (suc n) v = v ∷ replicate n v

unfoldable pub new_graph : ℕ → Graph
new_graph len = record { e = replicate len []; pre = replicate len []; topo = [] }

abbrev pub all_targets : List (ℕ × ℕ) → ℕ → List ℕ
all_targets [] otherwise = otherwise ∷ []
all_targets ((value, target) ∷ targets) otherwise = target ∷ all_targets targets otherwise

abbrev pub opt_target : Option ℕ → List ℕ
opt_target none = []
opt_target (some t) = t ∷ []

-- `result`: the blocks behind a terminator, without those of an unwinding.
unfoldable pub next_blocks : TerminatorKind → Outcome (List ℕ)
next_blocks (goto target) = ok (target ∷ [])
next_blocks (switch_int discr targets) = ok (all_targets targets.targets targets.otherwise)
next_blocks return = ok []
next_blocks unreachable = ok []
next_blocks (drop place target unwind) = ok (target ∷ [])
next_blocks (assert target unwind) = ok (target ∷ [])
next_blocks (yield value resume) = ok []
next_blocks (false_edge target) = ok []
next_blocks (false_unwind target) = ok []
next_blocks (inline_asm targets unwind) = ok []
next_blocks unwind_resume = ok []
next_blocks unwind_terminate = ok []
next_blocks coroutine_drop = ok []
next_blocks (call func args destination target unwind) = ok (opt_target target)
next_blocks tail_call = panic

-- The levels and the graph, behind the loop over `result`.
unfoldable pub enter_edges : ℕ → List ℕ → List ℕ → Graph → Outcome (List ℕ × Graph)
enter_edges block [] lev g = ok (lev, g)
enter_edges block (index ∷ result) lev g = do
  l ← or_panic (get_elem? lev index)
  p ← or_panic (get_elem? g.pre index)
  enter_edges block result (set lev index (l + 1))
      (record g { pre = set g.pre index (p ++ block ∷ []) })

unfoldable pub set_edges : ℕ → List ℕ → Graph → Outcome Graph
set_edges block result g = do
  old ← or_panic (get_elem? g.e block)
  ok (record g { e = set g.e block result })

-- `collect_edges` from a block, given by the terminators that are left.
unfoldable pub collect_from : ℕ → List TerminatorKind → List ℕ → Graph → Outcome (List ℕ × Graph)
collect_from block [] lev g = ok (lev, g)
collect_from block (terminator ∷ rest) lev g = do
  result ← next_blocks terminator
  r ← enter_edges block result lev g
  h ← set_edges block result r.1
  collect_from (block + 1) rest r.0 h

unfoldable pub collect_edges : List TerminatorKind → List ℕ → Graph → Outcome (List ℕ × Graph)
collect_edges blocks lev g = collect_from 0 blocks lev g

-- `pop` of the heap.
abbrev pub keep_max : ℕ → List ℕ → Option (ℕ × List ℕ) → Option (ℕ × List ℕ)
keep_max x xs none = some (x, [])
keep_max x xs (some (m, rest)) = if ltb x m then some (m, x ∷ rest) else some (x, xs)

unfoldable pub pop : List ℕ → Option (ℕ × List ℕ)
pop [] = none
pop (x ∷ xs) = keep_max x xs (pop xs)

abbrev pub minus_one : ℕ → Outcome ℕ
minus_one zero = panic
minus_one (suc l) = ok l

-- The loop over the edges of `top`: the levels and the heap.
unfoldable pub relax : List ℕ → List ℕ → List ℕ → Outcome (List ℕ × List ℕ)
relax [] lev q = ok (lev, q)
relax (next ∷ edges) lev q = do
  l ← or_panic (get_elem? lev next)
  l' ← minus_one l
  relax edges (set lev next l') (if l' == 0 then next ∷ q else q)

-- A round of the `while` loop, given the rounds behind it.
unfoldable pub visit_top :
    (List ℕ → List ℕ → Graph → Outcome Graph) → List ℕ → Graph → Option (ℕ × List ℕ) → Outcome Graph
visit_top rest lev g none = ok g
visit_top rest lev g (some (top, q)) = do
  edges ← or_panic (get_elem? g.e top)
  r ← relax edges lev q
  rest r.0 r.1 (record g { topo = g.topo ++ top ∷ [] })

unfoldable pub topo_loop : ℕ → List ℕ → List ℕ → Graph → Outcome Graph
topo_loop zero lev q g = stuck
topo_loop (suc fuel) lev q g = visit_top (topo_loop fuel) lev g (pop q)

unfoldable pub topo_order : List ℕ → Graph → Outcome Graph
topo_order lev g = topo_loop (suc (length g.e)) lev (0 ∷ []) g

-- The order of the blocks of one body, as `order` finds it.
unfoldable pub order : List TerminatorKind → Outcome Graph
order blocks = do
  r ← collect_edges blocks (replicate (length blocks) 0) (new_graph (length blocks))
  topo_order r.0 r.1
