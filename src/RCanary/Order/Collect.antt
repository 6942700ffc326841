-- ===== src/RCanary/Order/Collect.antt =====
-- What `collect_edges` makes of the blocks of a body, and the order that comes of it.
use rapx_log.Prelude.{
  ℕ, zero, suc, ◌+◌, ◌≤◌, ◌<◌, ◌≡◌, refl, sym, ap, subst, ◌∙◌, ◌==◌, ==_iff, true, false,
  Bool-cases, inl, inr, if◌then◌else◌, some, List, [], ◌∷◌, ◌++◌, length, get_elem?, set,
  get_elem?-some, get_elem?-set_ne, get_elem?-set_self, length-set, All, ok, arith,
}
use native.Mathlib.Decide.{ℕ_discrete}
use rapx_log.Mir.{TerminatorKind}
use rapx_log.RCanary.Order.{Graph, next_blocks, enter_edges, set_edges}
use rapx_log.RCanary.Order.Counts.{count, count-append, row, pending}

-- The predecessors that are noted of each block: `held` says how often each.
abbrev pub Holds : ℕ → (ℕ → ℕ → ℕ) → List (List ℕ) → Type 0
Holds n held pre =
    (v : ℕ) → v < n → (p : List ℕ) × (get_elem? pre v ≡ some p) × ((u : ℕ) → count u p ≡ held v u)

record Entered (n block : ℕ) (ks : List ℕ) (f : ℕ → ℕ) (held : ℕ → ℕ → ℕ) (g : Graph) (lev : List ℕ)
    (h : Graph) : Type 0 where
  size : length lev ≡ n
  pre_size : length h.pre ≡ n
  level : (v : ℕ) → v < n → get_elem? lev v ≡ some (count v ks + f v)
  pres : Holds n (λ v u. (if block == u then count v ks else 0) + held v u) h.pre
  edges : h.e ≡ g.e
  topo : h.topo ≡ g.topo

enter_edges-Entered :
    (n block : ℕ) (ks : List ℕ) (f : ℕ → ℕ) (held : ℕ → ℕ → ℕ) (lev : List ℕ) (g : Graph)
    → All (λ k. k < n) ks
    → length lev ≡ n
    → length g.pre ≡ n
    → ((v : ℕ) → v < n → get_elem? lev v ≡ some (f v))
    → Holds n held g.pre
    → (lev' : List ℕ) × (h : Graph) × (enter_edges block ks lev g ≡ ok (lev', h))
      × Entered n block ks f held g lev' h
unfolding enter_edges
enter_edges-Entered n block [] f held lev g inside size pre_size level pres = (
  lev,
  g,
  refl,
  record {
    size = size;
    pre_size = pre_size;
    level = λ v lt. level v lt ∙ ap some (omega arith);
    pres = λ v lt. (let (p, at, c) = pres v lt in (p, at, λ u. ground (arith, c u)));
    edges = refl;
    topo = refl;
  },
)
enter_edges-Entered n block (k ∷ ks) f held lev g (lt, inside) size pre_size level pres =
    let (p, at, c) = pres k lt in
    let lev1 = set lev k (f k + 1) in
    let f1 : ℕ → ℕ = λ v. (if k == v then 1 else 0) + f v in
    let held1 : ℕ → ℕ → ℕ =
      λ v u. (if k == v then (if block == u then 1 else 0) else 0) + held v u in
    let g1 : Graph = record g { pre = set g.pre k (p ++ block ∷ []) } in
    let (lev', h, run, r) =
      enter_edges-Entered n block ks f1 held1 lev1 g1 inside (length-set lev k (f k + 1) ∙ size)
        (length-set g.pre k (p ++ block ∷ []) ∙ pre_size) (level1 (f k + 1) (omega arith))
        (pres1 p c) in
    (
      lev',
      h,
      rw (level k lt, at) run,
      record {
        size = r.size;
        pre_size = r.pre_size;
        level = λ v lt'. r.level v lt' ∙ ap some (omega arith);
        pres = λ v lt'. (let (p', at', c') = r.pres v lt' in (p', at', λ u. ground (arith, c' u)));
        edges = r.edges;
        topo = r.topo;
      },
    )
  where
    level1 :
        (l : ℕ)
        → l ≡ f k + 1
        → (v : ℕ) → v < n
        → get_elem? (set lev k l) v ≡ some ((if k == v then 1 else 0) + f v)
    level1 l e v h = elim (ℕ_discrete k v) [
      | yes same ↦
          let self : (k == v) ≡ true = (==_iff k v).1 same in
          let here : get_elem? (set lev k l) k ≡ some l =
            get_elem?-set_self lev k l (omega (arith, lt, size)) in
          let l_v : l ≡ 1 + f v = omega (arith, e, ap f same) in
          rw self (subst (λ z. get_elem? (set lev k l) z ≡ some l) same here ∙ ap some l_v)
      | no other ↦
          let differs : (k == v) ≡ false = ground arith in
          rw differs (get_elem?-set_ne lev k v l other ∙ level v h ∙ ap some (omega arith))
    ]

    pres1 :
        (p : List ℕ)
        → ((u : ℕ) → count u p ≡ held k u)
        → Holds n
            (λ v u. (if k == v then (if block == u then 1 else 0) else 0) + held v u)
            (set g.pre k (p ++ block ∷ []))
    pres1 p c v h = elim (ℕ_discrete k v) [
      | yes same ↦
          let self : (k == v) ≡ true = (==_iff k v).1 same in
          let here : get_elem? (set g.pre k (p ++ block ∷ [])) k ≡ some (p ++ block ∷ []) =
            get_elem?-set_self g.pre k (p ++ block ∷ []) (omega (arith, lt, pre_size)) in
          (
            p ++ block ∷ [],
            subst (λ z. get_elem? (set g.pre k (p ++ block ∷ [])) z ≡ some (p ++ block ∷ [])) same
                here,
            λ u.
                let more = count-append u p (block ∷ []) in
                let was : count u p ≡ held v u = c u ∙ ap (λ z. held z u) same in
                rw self (omega (arith, more, was)),
          )
      | no other ↦
          let differs : (k == v) ≡ false = ground arith in
          let (p', at, c') = pres v h in
          (p', get_elem?-set_ne g.pre k v _ other ∙ at, λ u. rw differs (omega (arith, c' u)))
    ]

pub row-set_self : (e : List (List ℕ)) (b : ℕ) (r : List ℕ) → b < length e → row (set e b r) b ≡ r
row-set_self [] b r lt = absurd (omega (arith, lt))
row-set_self (x ∷ e) zero r lt = refl
row-set_self (x ∷ e) (suc b) r lt = row-set_self e b r (omega (arith, lt))

pub row-set_ne :
    (e : List (List ℕ)) (b u : ℕ) (r : List ℕ) → (b == u) ≡ false → row (set e b r) u ≡ row e u
row-set_ne [] b u r h = refl
row-set_ne (x ∷ e) zero zero r h = (let bad : true ≡ false = h in cc)
row-set_ne (x ∷ e) zero (suc u) r h = refl
row-set_ne (x ∷ e) (suc b) zero r h = refl
row-set_ne (x ∷ e) (suc b) (suc u) r h = row-set_ne e b u r (ground (arith, h))

pending-set :
    (n : ℕ) (e : List (List ℕ)) (b : ℕ) (r : List ℕ) (v : ℕ)
    → n ≤ b
    → pending n (set e b r) [] v ≡ pending n e [] v
pending-set zero e b r v le = refl
pending-set (suc n) e b r v le =
    let rec = pending-set n e b r v (omega (arith, le)) in
    let same = row-set_ne e b n r (ground (arith, le)) in rw (rec, same)

All-count : (n : ℕ) (ks : List ℕ) (v : ℕ) → All (λ k. k < n) ks → 0 < count v ks → v < n
All-count n [] v each h = elim h [ ]
All-count n (k ∷ ks) v (lt, each) h = elim (Bool-cases (k == v)) [
  | inl same ↦ subst (λ z. z < n) ((==_iff k v).0 same) lt
  | inr other ↦ All-count n ks v each (ground (arith, h, other))
]

-- The blocks below `b` are entered.
pub record Filled (n b : ℕ) (lev : List ℕ) (g : Graph) : Type 0 where
  pub size : length lev ≡ n
  pub e_size : length g.e ≡ n
  pub pre_size : length g.pre ≡ n
  pub level : (v : ℕ) → v < n → get_elem? lev v ≡ some (pending b g.e [] v)
  pub pres : Holds n (λ v u. count v (row g.e u)) g.pre
  pub inside : (u v : ℕ) → 0 < count v (row g.e u) → v < n
  pub empty : (u : ℕ) → b ≤ u → row g.e u ≡ []
  pub topo : g.topo ≡ []

-- The blocks behind a terminator are blocks of the body, and the first block is not among them.
abbrev pub HasTargets : ℕ → TerminatorKind → Type 0
HasTargets n t = (ts : List ℕ) × (next_blocks t ≡ ok ts) × All (λ k. k < n) ts × (count 0 ts ≡ 0)

pub step-Filled :
    (n b : ℕ) (lev : List ℕ) (g : Graph) (t : TerminatorKind) (ts : List ℕ)
    → b < n
    → All (λ k. k < n) ts
    → Filled n b lev g
    → (lev' : List ℕ) × (h : Graph) × (k : Graph) × (enter_edges b ts lev g ≡ ok (lev', h))
      × (set_edges b ts h ≡ ok k)
      × (k.e ≡ set g.e b ts)
      × Filled n (suc b) lev' k
unfolding set_edges
step-Filled n b lev g t ts lt each f =
    let (lev', h, run, r) =
      enter_edges-Entered n b ts (pending b g.e []) (λ v u. count v (row g.e u)) lev g each f.size
        f.pre_size f.level f.pres in
    let (old, at) = get_elem?-some g.e b (omega (arith, lt, f.e_size)) in
    let at' : get_elem? h.e b ≡ some old = ap (λ z. get_elem? z b) r.edges ∙ at in
    let k : Graph = record h { e = set g.e b ts } in
    (
      lev',
      h,
      k,
      run,
      rw at' (ap (λ z. ok (record h { e = set z b ts })) r.edges),
      refl,
      record {
        size = r.size;
        e_size = length-set g.e b ts ∙ f.e_size;
        pre_size = r.pre_size;
        level = λ v lt'.
            let kept = pending-set b g.e b ts v (omega arith) in
            r.level v lt' ∙ ap some (omega (arith, kept, ap (count v) self));
        pres = λ v lt'. (let (p, at'', c) = r.pres v lt' in (p, at'', λ u. c u ∙ here v u));
        inside = inside;
        empty =
            λ u le. (row-set_ne g.e b u ts (ground (arith, le)) ∙ f.empty u (omega (arith, le)));
        topo = r.topo ∙ f.topo;
      },
    )
  where
    self : row (set g.e b ts) b ≡ ts
    self = row-set_self g.e b ts (omega (arith, lt, f.e_size))

    here :
        (v u : ℕ)
        → (if b == u then count v ts else 0) + count v (row g.e u) ≡ count v (row (set g.e b ts) u)
    here v u = elim (Bool-cases (b == u)) [
      | inl same ↦
          let e = (==_iff b u).0 same in
          let none_yet : count v (row g.e u) ≡ 0 = ap (count v) (f.empty u (omega (arith, e))) in
          let new : count v (row (set g.e b ts) u) ≡ count v ts =
            ap (λ z. count v (row (set g.e b ts) z)) (sym e) ∙ ap (count v) self in
          rw same (omega (arith, none_yet, new))
      | inr other ↦
          let kept = ap (count v) (row-set_ne g.e b u ts other) in rw other (omega (arith, kept))
    ]

    inside : (u v : ℕ) → 0 < count v (row (set g.e b ts) u) → v < n
    inside u v edge = elim (Bool-cases (b == u)) [
      | inl same ↦
          let e = (==_iff b u).0 same in
          let edge' : 0 < count v ts =
            subst (λ z. 0 < count v z) (ap (row (set g.e b ts)) (sym e) ∙ self) edge in
          All-count n ts v each edge'
      | inr other ↦ f.inside u v (subst (λ z. 0 < count v z) (row-set_ne g.e b u ts other) edge)
    ]
