-- ===== src/CallGraph/Visits.antt =====
-- What a visit of a body enters, and what `get_callees_path` reads back.
use rapx_log.Prelude.{
  some-inj, ℕ, ◌≡◌, refl, sym, ap, ◌∙◌, ◌⊎◌, inl, inr, ◌↔◌, Bool, Option, none, some, Option-cases,
  List, [], ◌∷◌,
}
use mathlib.Core.List.{Memᴰ}
use rapx_log.CallGraph.{Str, get_str, CallGraphInfo, add_node}
use rapx_log.CallGraph.Visitor.{
  TyCtxt, TerminatorKind, call_fn_def, other_terminator, add_in_call_graph, entered_path,
  add_to_call_graph, resolved_callee, enter, visit_terminator, visit_blocks, visit,
}
use rapx_log.CallGraph.Registry.{IsSound, Calls}
use rapx_log.CallGraph.Edge.{add_funciton_call_edge-Calls, add_node-Calls}

iff_trans {a b c} : {P : Type a} {Q : Type b} {R : Type c} → P ↔ Q → Q ↔ R → P ↔ R
iff_trans f g = (λ p. g.0 (f.0 p), λ r. f.1 (g.1 r))

or_iff {a b c d} :
    {P : Type a} {Q : Type b} {R : Type c} {S : Type d} → P ↔ Q → R ↔ S → (P ⊎ R) ↔ (Q ⊎ S)
or_iff f g = (
  λ w. elim w [ inl p ↦ inl (f.0 p) | inr r ↦ inr (g.0 r) ],
  λ w. elim w [ inl q ↦ inl (f.1 q) | inr s ↦ inr (g.1 s) ],
)

-- Behind the run, the function at `p` calls those it called and those that `New` says.
abbrev Enters : Str → (Str → Type 0) → CallGraphInfo → CallGraphInfo → Type 0
Enters p New info info' =
    IsSound info'
    × ((q u : Str) → Calls info' q u ↔ (Calls info q u ⊎ ((q ≡ p) × New u)))
    × ((k : ℕ) × (get_str info'.node_registry p ≡ some k))

add_in_call_graph-Enters :
    (p t : Str) (d : ℕ) (info : CallGraphInfo) (i : ℕ)
    → IsSound info
    → get_str info.node_registry p ≡ some i
    → Enters p (λ u. u ≡ t) info (add_in_call_graph p d t info)
unfolding add_in_call_graph
add_in_call_graph-Enters p t d info i sound at_p =
    elim (Option-cases (get_str info.node_registry t)) [
      | inr (j, at_t) ↦
          let (s, calls, same) = add_funciton_call_edge-Calls info i j sound p t at_p at_t in
          rw (at_p, at_t) (s, calls, (i, ap (λ r. get_str r p) same ∙ at_p))
      | inl absent ↦
          let (s, calls, (j, at_t), kept) = add_node-Calls info d t sound in
          let info' = add_node d t info in
          let at_p' = kept p i at_p in
          let (s', calls', same) = add_funciton_call_edge-Calls info' i j s p t at_p' at_t in
          rw (at_p, absent, at_t)
            (
              s',
              λ q u. iff_trans (calls' q u) (or_iff (calls q u) (λ w. w, λ w. w)),
              (i, ap (λ r. get_str r p) same ∙ at_p'),
            )
    ]

abbrev path_of : TyCtxt → Option (ℕ × Option Bool) → Option Str
path_of tcx none = none
path_of tcx (some (d, is_virtual)) = entered_path tcx d is_virtual

-- The path under which the called function is entered, if it is entered.
abbrev pub callee_path : TyCtxt → ℕ → TerminatorKind → Option Str
callee_path tcx def_id other_terminator = none
callee_path tcx def_id (call_fn_def c substs) =
    path_of tcx (resolved_callee tcx c (tcx.try_resolve def_id c substs))

nothing-Enters :
    (p : Str) (info : CallGraphInfo) (k : ℕ)
    → IsSound info
    → get_str info.node_registry p ≡ some k
    → Enters p (λ u. ◌≡◌ {A = Option Str} none (some u)) info info
nothing-Enters p info k sound at =
    (sound, λ q u. (λ w. inl w, λ w. elim w [ inl calls ↦ calls | inr (same, e) ↦ cc ]), (k, at))

module _ (tcx : TyCtxt) (def_id : ℕ) where
  abbrev caller : Str
  caller = tcx.def_path_str def_id

  enter_path-Enters :
      (d : ℕ) (v : Option Bool) (o : Option Str) (info : CallGraphInfo) (k : ℕ)
      → entered_path tcx d v ≡ o
      → IsSound info
      → get_str info.node_registry caller ≡ some k
      → Enters caller (λ u. o ≡ some u) info (add_to_call_graph tcx def_id d v info)
  unfolding add_to_call_graph
  enter_path-Enters d v none info k e sound at = rw e (nothing-Enters caller info k sound at)
  enter_path-Enters d v (some t) info k e sound at =
      let (s, calls, reg) = add_in_call_graph-Enters caller t d info k sound at in
      rw e (
        s,
        λ q u. iff_trans (calls q u) (
            or_iff (λ w. w, λ w. w)
              (λ (same, h). (same, ap some (sym h)), λ (same, h). (same, sym (some-inj h)))),
        reg,
      )

  enter-Enters :
      (o : Option (ℕ × Option Bool)) (info : CallGraphInfo) (k : ℕ)
      → IsSound info
      → get_str info.node_registry caller ≡ some k
      → Enters caller (λ u. path_of tcx o ≡ some u) info (enter tcx def_id info o)
  enter-Enters none info k sound at = nothing-Enters caller info k sound at
  enter-Enters (some (d, v)) info k sound at =
      enter_path-Enters d v (entered_path tcx d v) info k refl sound at

  visit_terminator-Enters :
      (t : TerminatorKind) (info : CallGraphInfo) (k : ℕ)
      → IsSound info
      → get_str info.node_registry caller ≡ some k
      → Enters caller
          (λ u. callee_path tcx def_id t ≡ some u)
          info
          (visit_terminator tcx def_id t info)
  unfolding visit_terminator
  visit_terminator-Enters other_terminator info k sound at = nothing-Enters caller info k sound at
  visit_terminator-Enters (call_fn_def c substs) info k sound at =
      enter-Enters (resolved_callee tcx c (tcx.try_resolve def_id c substs)) info k sound at

  -- Some terminator of the body is a call that is entered under the path.
  abbrev pub CalledBy : List TerminatorKind → Str → Type 0
  CalledBy body u = (t : TerminatorKind) × Memᴰ t body × (callee_path tcx def_id t ≡ some u)

  called_cases :
      (t : TerminatorKind) (ts : List TerminatorKind) (u : Str)
      → CalledBy (t ∷ ts) u ↔ ((callee_path tcx def_id t ≡ some u) ⊎ CalledBy ts u)
  called_cases t ts u = (
    λ (x, m, e). first x e m,
    λ w. elim w [ inl e ↦ (t, Memᴰ.head refl, e) | inr (x, m, e) ↦ (x, Memᴰ.tail m, e) ],
  )
    where
      first :
          (x : TerminatorKind)
          → callee_path tcx def_id x ≡ some u
          → Memᴰ x (t ∷ ts)
          → (callee_path tcx def_id t ≡ some u) ⊎ CalledBy ts u
      first x e (Memᴰ.head same) = inl (ap (callee_path tcx def_id) (sym same) ∙ e)
      first x e (Memᴰ.tail m) = inr (x, m, e)

  visit_blocks-Enters :
      (body : List TerminatorKind) (info : CallGraphInfo) (k : ℕ)
      → IsSound info
      → get_str info.node_registry caller ≡ some k
      → Enters caller (CalledBy body) info (visit_blocks tcx def_id body info)
  unfolding visit_blocks
  visit_blocks-Enters [] info k sound at = (
    sound,
    λ q u. (λ w. inl w, λ w. elim w [ inl calls ↦ calls | inr (same, (x, m, e)) ↦ elim m [ ] ]),
    (k, at),
  )
  visit_blocks-Enters (t ∷ ts) info k sound at =
      let (s, calls, (k', at')) = visit_terminator-Enters t info k sound at in
      let (s', calls', reg) =
        visit_blocks-Enters ts (visit_terminator tcx def_id t info) k' s at' in
      (
        s',
        λ q u. iff_trans (calls' q u) (iff_trans (or_iff (calls q u) (λ w. w, λ w. w)) (both q u)),
        reg,
      )
    where
      both :
          (q u : Str)
          → ((Calls info q u ⊎ ((q ≡ caller) × (callee_path tcx def_id t ≡ some u)))
              ⊎ ((q ≡ caller) × CalledBy ts u))
            ↔ (Calls info q u ⊎ ((q ≡ caller) × CalledBy (t ∷ ts) u))
      both q u = (
        λ w. elim w [
          | inl (inl calls) ↦ inl calls
          | inl (inr (same, e)) ↦ inr (same, (called_cases t ts u).1 (inl e))
          | inr (same, c) ↦ inr (same, (called_cases t ts u).1 (inr c))
        ],
        λ w. elim w [
          | inl calls ↦ inl (inl calls)
          | inr (same, c) ↦ elim ((called_cases t ts u).0 c) [
            | inl e ↦ inl (inr (same, e))
            | inr c' ↦ inr (same, c')
          ]
        ],
      )

  -- A visit of a body keeps the registry and the functions in step, and enters the calls of the body:
  -- behind it, the function at `q` calls the one at `u` if it did before, or if `q` is the path of the
  -- visited function and some call of the body leads to `u`.
  pub visit-Calls :
      (body : List TerminatorKind) (info : CallGraphInfo)
      → IsSound info
      → IsSound (visit tcx def_id body info)
        × ((q u : Str)
            → Calls (visit tcx def_id body info) q u
              ↔ (Calls info q u ⊎ ((q ≡ tcx.def_path_str def_id) × CalledBy body u)))
  unfolding visit
  visit-Calls body info sound =
      let (s, calls, (k, at), kept) = add_node-Calls info def_id caller sound in
      let (s', calls', reg) = visit_blocks-Enters body (add_node def_id caller info) k s at in
      (s', λ q u. iff_trans (calls' q u) (or_iff (calls q u) (λ w. w, λ w. w)))
