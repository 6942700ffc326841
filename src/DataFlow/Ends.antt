-- ===== src/DataFlow/Ends.antt =====
-- When the traversals of core/dataflow/graph.rs end, and the search of `is_connected` among them.
use rapx_log.Prelude.{
  some-inj, ℕ, zero, suc, ◌-◌, ◌≤◌, ◌<◌, ◌≡◌, refl, sym, ap, subst, ◌∙◌, ◌≢◌, ◌==◌, Bool, true,
  false, Option, none, some, List, [], ◌∷◌, get_elem?, Outcome, ok, panic, stuck, ◌>>=◌, or_panic,
  arith,
}
use mathlib.Core.List.{Memᴰ}
use rapx_log.DataFlow.{GraphEdge, GraphNode, Graph}
use rapx_log.DataFlow.Sound.{IsSound}
use rapx_log.DataFlow.Dfs.{
  Direction, upside, downside, both, DfsStatus, continue, stop, Run, NodeOperator, EdgeValidator,
  after_edge, visit_edge, traverse, descend, on_status, dfs, always_true_edge_validator,
  find_operator, is_connected,
}

abbrev pub Returns {ℓ} : {A : Type ℓ} → Outcome A → Type ℓ
Returns run = run ≢ stuck

pub >>=-Returns {κ ℓ} :
    {B : Type κ} {A : Type ℓ} (run : Outcome A) (next : A → Outcome B)
    → Returns run
    → ((a : A) → run ≡ ok a → Returns (next a))
    → Returns (run >>= next)
>>=-Returns (ok a) next h each = each a refl
>>=-Returns panic next h each = λ e. cc
>>=-Returns stuck next h each = absurd (h refl)

or_panic-Returns {ℓ} : {A : Type ℓ} (o : Option A) → Returns (or_panic o)
or_panic-Returns none = λ e. cc
or_panic-Returns (some a) = λ e. cc

or_panic-eq {ℓ} : {A : Type ℓ} (o : Option A) (a : A) → or_panic o ≡ ok a → o ≡ some a
or_panic-eq none a h = cc
or_panic-eq (some b) a h = ok_some h
  where
    ok_some : ok b ≡ ok a → some b ≡ some a
    ok_some h = cc

-- Every edge leads from a lower to a higher rank, and no rank is above `height`.
pub record IsRanked (g : Graph) (height : ℕ) (rank : ℕ → ℕ) : Type 0 where
  pub climbs : (k : ℕ) (e : GraphEdge) → get_elem? g.edges k ≡ some e → rank e.src < rank e.dst
  pub bounded : (x : ℕ) → rank x ≤ height

module _ {ℓ} {S : Type ℓ} (g : Graph) (op : NodeOperator S) (valid : EdgeValidator) (all : Bool)
    (op-Returns : (x : ℕ) (s : S) → Returns (op g x s))
    (valid-Returns : (k : ℕ) → Returns (valid g k)) where
  after_edge-Returns :
      (b : Bool) (rest : Run S) (r : DfsStatus × S)
      → ((s : S) → Returns (rest s))
      → Returns (after_edge b rest r)
  after_edge-Returns b rest (continue, s) h = h s
  after_edge-Returns true rest (stop, s) h = h s
  after_edge-Returns false rest (stop, s) h = λ e. cc

  visit_edge-Returns :
      (run rest : Run S) (s : S) (status : DfsStatus)
      → ((s : S) → Returns (run s))
      → ((s : S) → Returns (rest s))
      → Returns (visit_edge all run rest s status)
  visit_edge-Returns run rest s continue h k =
      >>=-Returns (run s) (after_edge all rest) (h s) (λ r e. after_edge-Returns all rest r k)
  visit_edge-Returns run rest s stop h k = k s

  traverse-Returns :
      (rec : ℕ → Run S) (side : GraphEdge → ℕ) (ks : List ℕ)
      → ((k : ℕ) (e : GraphEdge)
          → Memᴰ k ks
          → get_elem? g.edges k ≡ some e
          → (s : S) → Returns (rec (side e) s))
      → (s : S) → Returns (traverse g valid all rec side ks s)
  unfolding traverse
  traverse-Returns rec side [] each s = λ e. cc
  traverse-Returns rec side (k ∷ ks) each s =
      >>=-Returns (or_panic (get_elem? g.edges k)) _ (or_panic-Returns (get_elem? g.edges k))
        (λ e at. >>=-Returns (valid g k) _ (valid-Returns k) (λ status run.
          visit_edge-Returns (rec (side e)) (traverse g valid all rec side ks) s status
            (each k e (Memᴰ.head refl) (or_panic-eq (get_elem? g.edges k) e at))
            (traverse-Returns rec side ks (λ j f m. each j f (Memᴰ.tail m)))))

  on_status-Returns :
      (go_on : S → Outcome (DfsStatus × S)) (r : DfsStatus × S)
      → ((s : S) → Returns (go_on s))
      → Returns (on_status go_on r)
  on_status-Returns go_on (continue, s) h = h s
  on_status-Returns go_on (stop, s) h = λ e. cc

  -- In one direction, with a measure that falls along its edges.
  falling-Returns :
      (direction : Direction) (m : ℕ → ℕ)
      → ((rec : ℕ → Run S) (x : ℕ) (v : GraphNode) (s : S)
          → get_elem? g.nodes x ≡ some v
          → ((y : ℕ) → m y < m x → (s : S) → Returns (rec y s))
          → Returns (descend g valid all rec direction v s))
      → (fuel x : ℕ) (s : S) → m x < fuel
      → Returns (dfs fuel g op valid all direction x s)
  unfolding dfs
  falling-Returns direction m step zero x s lt = elim lt [ ]
  falling-Returns direction m step (suc fuel) x s lt =
      >>=-Returns (op g x s) _ (op-Returns x s) (λ r run. on_status-Returns _ r (λ s.
        >>=-Returns (or_panic (get_elem? g.nodes x)) _ (or_panic-Returns (get_elem? g.nodes x))
          (λ v at.
            step (dfs fuel g op valid all direction) x v s (or_panic-eq (get_elem? g.nodes x) v at)
              (λ y less s. falling-Returns direction m step fuel y s (omega (arith, less, lt))))))

module _ (g : Graph) (sound : IsSound g) (height : ℕ) (rank : ℕ → ℕ)
    (ranked : IsRanked g height rank) where
  in_lower :
      (x k : ℕ) (v : GraphNode) (e : GraphEdge)
      → get_elem? g.nodes x ≡ some v
      → Memᴰ k v.in_edges
      → get_elem? g.edges k ≡ some e
      → rank e.src < rank x
  in_lower x k v e at m there_is =
      let (f, at', same) = (sound.nodes x v at).ins k m in
      let eq : f ≡ e = some-inj (sym at' ∙ there_is) in
      subst (λ z. rank e.src < rank z) (sym (ap (λ z. z.dst) eq) ∙ same)
        (ranked.climbs k e there_is)

  out_higher :
      (x k : ℕ) (v : GraphNode) (e : GraphEdge)
      → get_elem? g.nodes x ≡ some v
      → Memᴰ k v.out_edges
      → get_elem? g.edges k ≡ some e
      → rank x < rank e.dst
  out_higher x k v e at m there_is =
      let (f, at', same) = (sound.nodes x v at).outs k m in
      let eq : f ≡ e = some-inj (sym at' ∙ there_is) in
      subst (λ z. rank z < rank e.dst) (sym (ap (λ z. z.src) eq) ∙ same)
        (ranked.climbs k e there_is)

-- Up or down, not both at once.
abbrev pub IsOneWay : Direction → Type 0
IsOneWay upside = Unit
IsOneWay downside = Unit
IsOneWay both = ⊥

-- On a sound graph whose edges climb in a rank of at most `height`, a traversal in one direction ends
-- with a depth of at most `height + 1`, from every node, whatever the operator and the validator are, if
-- each call of those ends.
pub dfs-Returns {ℓ} :
    {S : Type ℓ} (g : Graph) (height : ℕ) (rank : ℕ → ℕ) (op : NodeOperator S)
    (valid : EdgeValidator) (all : Bool) (direction : Direction) (fuel x : ℕ) (s : S)
    → IsSound g
    → IsRanked g height rank
    → ((x : ℕ) (s : S) → Returns (op g x s))
    → ((k : ℕ) → Returns (valid g k))
    → IsOneWay direction
    → height < fuel
    → Returns (dfs fuel g op valid all direction x s)
unfolding descend
dfs-Returns g height rank op valid all upside fuel x s sound ranked op_ends valid_ends way lt =
    falling-Returns g op valid all op_ends valid_ends upside rank
      (λ rec x v s at each.
        traverse-Returns g op valid all op_ends valid_ends rec (λ e. e.src) v.in_edges
          (λ k e m there_is. each e.src (in_lower g sound height rank ranked x k v e at m there_is))
          s)
      fuel x s (omega (arith, ranked.bounded x, lt))
dfs-Returns g height rank op valid all downside fuel x s sound ranked op_ends valid_ends way lt =
    falling-Returns g op valid all op_ends valid_ends downside (λ x. height - rank x)
      (λ rec x v s at each.
        traverse-Returns g op valid all op_ends valid_ends rec (λ e. e.dst) v.out_edges
          (λ k e m there_is.
            let higher = out_higher g sound height rank ranked x k v e at m there_is in
            each e.dst (omega (arith, higher, ranked.bounded e.dst)))
          s)
      fuel x s (omega (arith, lt))
dfs-Returns g height rank op valid all both fuel x s sound ranked op_ends valid_ends way lt =
    absurd way

-- From a node whose first outgoing edge leads back to it, as that of a counter which is assigned its own
-- sum, `is_connected` to another node does not return: no depth is enough.
pub is_connected-cycle :
    (g : Graph) (a b k : ℕ) (v : GraphNode) (e : GraphEdge) (ks : List ℕ) (fuel : ℕ)
    → get_elem? g.nodes a ≡ some v
    → v.out_edges ≡ k ∷ ks
    → get_elem? g.edges k ≡ some e
    → e.dst ≡ a
    → a ≢ b
    → is_connected fuel g a b ≡ stuck
unfolding is_connected dfs descend traverse find_operator always_true_edge_validator
is_connected-cycle g a b k v e ks fuel at out there_is back other = rw (goes_round fuel false)
  where
    goes_round :
        (fuel : ℕ) (s : Bool)
        → dfs fuel g (find_operator b) always_true_edge_validator false downside a s ≡ stuck
    goes_round zero s = refl
    goes_round (suc fuel) s =
        let differs : (a == b) ≡ false = ground arith in
        rw (differs, at, out, there_is, back, goes_round fuel false)
