-- ===== src/DataFlow/Flow.antt =====
-- What `is_connected` answers, and when a traversal ends.
use rapx_log.Prelude.{
  some-inj, ℕ, zero, suc, ◌<◌, ◌≡◌, refl, sym, ap, subst, ◌∙◌, ◌≢◌, ◌⊎◌, inl, inr, ◌↔◌, ◌==◌,
  ==_iff, Bool, true, false, Bool-cases, some, List, [], ◌∷◌, length, get_elem?, get_elem?-some,
  Outcome, ok, stuck, arith,
}
use mathlib.Core.List.{Memᴰ}
use rapx_log.DataFlow.{GraphEdge, GraphNode, Graph}
use rapx_log.DataFlow.Sound.{IsSound}
use rapx_log.DataFlow.Dfs.{
  Direction, upside, downside, DfsStatus, continue, stop, Run, after_edge, traverse, descend, dfs,
  always_true_edge_validator, find_operator, is_connected,
}

-- There is a way along edges, each listed at the node where the step begins.
pub data Flow (g : Graph) (edges : GraphNode → List ℕ) (side : GraphEdge → ℕ) : ℕ → ℕ → Type 0 where
  here : {x : ℕ} → Flow g edges side x x
  there :
      {x y k : ℕ} {v : GraphNode} {e : GraphEdge}
      → get_elem? g.nodes x ≡ some v
      → Memᴰ k (edges v)
      → get_elem? g.edges k ≡ some e
      → Flow g edges side (side e) y
      → Flow g edges side x y

abbrev pub Downward : Graph → ℕ → ℕ → Type 0
Downward g = Flow g (λ v. v.out_edges) (λ e. e.dst)

abbrev pub Upward : Graph → ℕ → ℕ → Type 0
Upward g = Flow g (λ v. v.in_edges) (λ e. e.src)

abbrev status_of : Bool → DfsStatus
status_of true = stop
status_of false = continue

-- The run is cut off by the fuel, or it says whether `P` holds.
data Finds (run : Outcome (DfsStatus × Bool)) (P : Type 0) : Type 0 where
  cut_off : run ≡ stuck → Finds run P
  found : (b : Bool) → run ≡ ok (status_of b, b) → ((b ≡ true) ↔ P) → Finds run P

Finds-iff : (run : Outcome (DfsStatus × Bool)) (P Q : Type 0) → P ↔ Q → Finds run P → Finds run Q
Finds-iff run P Q iff (cut_off e) = cut_off e
Finds-iff run P Q iff (found b e h) = found b e (λ x. iff.0 (h.0 x), λ q. h.1 (iff.1 q))

module _ (g : Graph) (side : GraphEdge → ℕ) (rec : ℕ → Run Bool) (P : ℕ → Type 0) where
  abbrev SomeOf : List ℕ → Type 0
  SomeOf ks = (k : ℕ) × (e : GraphEdge) × Memᴰ k ks × (get_elem? g.edges k ≡ some e) × P (side e)

  after-Finds :
      (b : Bool) (k : ℕ) (e : GraphEdge) (ks : List ℕ)
      → get_elem? g.edges k ≡ some e
      → ((b ≡ true) ↔ P (side e))
      → Finds (traverse g always_true_edge_validator false rec side ks false) (SomeOf ks)
      → Finds
          (after_edge false
            (traverse g always_true_edge_validator false rec side ks)
            (status_of b, b))
          (SomeOf (k ∷ ks))
  after-Finds true k e ks at iff rest =
      found true refl (λ h. (k, e, Memᴰ.head refl, at, iff.0 refl), λ h. refl)
  after-Finds false k e ks at iff rest =
      Finds-iff _ (SomeOf ks) (SomeOf (k ∷ ks))
        (λ (j, f, m, at', p). (j, f, Memᴰ.tail m, at', p), λ (j, f, m, at', p). later j f m at' p)
        rest
    where
      later :
          (j : ℕ) (f : GraphEdge)
          → Memᴰ j (k ∷ ks)
          → get_elem? g.edges j ≡ some f
          → P (side f)
          → SomeOf ks
      later j f (Memᴰ.head same) at' p =
          let eq : e ≡ f = some-inj (sym at ∙ ap (get_elem? g.edges) (sym same) ∙ at') in
          let no : false ≡ true = iff.1 (subst (λ z. P (side z)) (sym eq) p) in cc
      later j f (Memᴰ.tail m) at' p = (j, f, m, at', p)

  traverse-Finds :
      (ks : List ℕ)
      → ((k : ℕ)
          → Memᴰ k ks
          → (e : GraphEdge) × (get_elem? g.edges k ≡ some e)
            × ((s : Bool) → Finds (rec (side e) s) (P (side e))))
      → Finds (traverse g always_true_edge_validator false rec side ks false) (SomeOf ks)
  unfolding traverse always_true_edge_validator
  traverse-Finds [] each = found false refl (λ h. cc, λ (k, e, m, at, p). elim m [ ])
  traverse-Finds (k ∷ ks) each =
      let (e, at, f) = each k (Memᴰ.head refl) in
      let rest = traverse-Finds ks (λ j m. each j (Memᴰ.tail m)) in
      elim (f false) [
        | cut_off h ↦ cut_off (rw (at, h))
        | found b h iff ↦ by_status at h (after-Finds b k e ks at iff rest)
      ]
    where
      by_status :
          {e : GraphEdge} {b : Bool}
          → get_elem? g.edges k ≡ some e
          → rec (side e) false ≡ ok (status_of b, b)
          → Finds
              (after_edge false
                (traverse g always_true_edge_validator false rec side ks)
                (status_of b, b))
              (SomeOf (k ∷ ks))
          → Finds
              (traverse g always_true_edge_validator false rec side (k ∷ ks) false)
              (SomeOf (k ∷ ks))
      by_status at h (cut_off q) = cut_off (rw (at, h) q)
      by_status at h (found c q iff) = found c (rw (at, h) q) iff

abbrev search : Graph → ℕ → Direction → ℕ → ℕ → Run Bool
search g target direction fuel =
    dfs fuel g (find_operator target) always_true_edge_validator false direction

-- The first step of a way that is not empty.
Flow-cases :
    (g : Graph) (edges : GraphNode → List ℕ) (side : GraphEdge → ℕ) {x y : ℕ} (v : GraphNode)
    → get_elem? g.nodes x ≡ some v
    → Flow g edges side x y
    → (x ≡ y)
      ⊎ ((k : ℕ) × (e : GraphEdge) × Memᴰ k (edges v)
          × (get_elem? g.edges k ≡ some e)
          × Flow g edges side (side e) y)
Flow-cases g edges side v at here = inl refl
Flow-cases g edges side v at (there {k = k} {v = w} {e = e} at' m at'' p) =
    let eq : w ≡ v = some-inj (sym at' ∙ at) in
    inr (k, e, subst (λ z. Memᴰ k (edges z)) eq m, at'', p)

module _ (g : Graph) (target : ℕ) (direction : Direction) (edges : GraphNode → List ℕ)
    (side : GraphEdge → ℕ)
    (descends : (rec : ℕ → Run Bool) (v : GraphNode) (s : Bool)
      → descend g always_true_edge_validator false rec direction v s
        ≡ traverse g always_true_edge_validator false rec side (edges v) s)
    (listed : (x k : ℕ) (v : GraphNode)
      → get_elem? g.nodes x ≡ some v
      → Memᴰ k (edges v)
      → (e : GraphEdge) × (get_elem? g.edges k ≡ some e) × (side e < length g.nodes)) where
  Flow-first :
      (x : ℕ) (v : GraphNode) (rec : ℕ → Run Bool)
      → get_elem? g.nodes x ≡ some v
      → x ≢ target
      → SomeOf g side rec (λ y. Flow g edges side y target) (edges v) ↔ Flow g edges side x target
  Flow-first x v rec at other = (λ (k, e, m, at', p). there at m at' p, λ flow. first flow)
    where
      first :
          Flow g edges side x target → SomeOf g side rec (λ y. Flow g edges side y target) (edges v)
      first flow = elim (Flow-cases g edges side v at flow) [
        | inl same ↦ absurd (other same)
        | inr step ↦ step
      ]

  search-Finds :
      (fuel x : ℕ) (s : Bool)
      → x < length g.nodes
      → Finds (search g target direction fuel x s) (Flow g edges side x target)
  unfolding dfs find_operator
  search-Finds zero x s lt = cut_off refl
  search-Finds (suc fuel) x s lt = elim (Bool-cases (x == target)) [
    | inl same ↦
        found true (rw same)
          (λ h. subst (λ z. Flow g edges side x z) ((==_iff x target).0 same) here, λ h. refl)
    | inr other ↦
        let (v, at) = get_elem?-some g.nodes x lt in
        let ne : x ≢ target = ground arith in
        let run =
          traverse-Finds g side (search g target direction fuel) (λ y. Flow g edges side y target)
            (edges v)
            (λ k m.
              let (e, there_is, lt') = listed x k v at m in
              (e, there_is, λ s. search-Finds fuel (side e) s lt')) in
        elim (Finds-iff _ _ _ (Flow-first x v (search g target direction fuel) at ne) run) [
          | cut_off h ↦ cut_off (rw (other, at, descends) h)
          | found b h iff ↦ found b (rw (other, at, descends) h) iff
        ]
  ]

out_listed :
    (g : Graph)
    → IsSound g
    → (x k : ℕ) (v : GraphNode) → get_elem? g.nodes x ≡ some v
    → Memᴰ k v.out_edges
    → (e : GraphEdge) × (get_elem? g.edges k ≡ some e) × (e.dst < length g.nodes)
out_listed g sound x k v at m =
    let (e, there_is, same) = (sound.nodes x v at).outs k m in
    (e, there_is, (sound.ends k e there_is).1)

in_listed :
    (g : Graph)
    → IsSound g
    → (x k : ℕ) (v : GraphNode) → get_elem? g.nodes x ≡ some v
    → Memᴰ k v.in_edges
    → (e : GraphEdge) × (get_elem? g.edges k ≡ some e) × (e.src < length g.nodes)
in_listed g sound x k v at m =
    let (e, there_is, same) = (sound.nodes x v at).ins k m in
    (e, there_is, (sound.ends k e there_is).0)

-- The answer of a run that the fuel may cut off.
pub data Answers (run : Outcome Bool) (P : Type 0) : Type 0 where
  out_of_fuel : run ≡ stuck → Answers run P
  answers : (b : Bool) → run ≡ ok b → ((b ≡ true) ↔ P) → Answers run P

-- On a sound graph `is_connected` of a node does not panic: it is cut off by the fuel, or it returns
-- and says whether there is a way down the listed edges from the first node to the second, or a way up.
pub is_connected-Flow :
    (fuel : ℕ) (g : Graph) (a b : ℕ)
    → IsSound g
    → a < length g.nodes
    → Answers (is_connected fuel g a b) (Downward g a b ⊎ Upward g a b)
unfolding is_connected descend
is_connected-Flow fuel g a b sound lt =
    elim (search-Finds g b downside (λ v. v.out_edges) (λ e. e.dst) (λ rec v s. refl)
      (out_listed g sound) fuel a false lt) [
        | cut_off h ↦ out_of_fuel (rw h)
        | found r h iff ↦ second r h iff
      ]
  where
    second :
        (r : Bool)
        → search g b downside fuel a false ≡ ok (status_of r, r)
        → ((r ≡ true) ↔ Downward g a b)
        → Answers (is_connected fuel g a b) (Downward g a b ⊎ Upward g a b)
    second true h iff = answers true (rw h) (λ x. inl (iff.0 refl), λ x. refl)
    second false h iff =
        elim (search-Finds g b upside (λ v. v.in_edges) (λ e. e.src) (λ rec v s. refl)
          (in_listed g sound) fuel a false lt) [
            | cut_off h' ↦ out_of_fuel (rw (h, h'))
            | found r h' iff' ↦ answers r (rw (h, h')) (
              λ x. inr (iff'.0 x),
              λ way. elim way [
                | inl down ↦ (let no : false ≡ true = iff.1 down in cc)
                | inr up ↦ iff'.1 up
              ],
            )
          ]
