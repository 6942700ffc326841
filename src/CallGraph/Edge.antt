-- ===== src/CallGraph/Edge.antt =====
-- A call that is entered is one call more, and nothing else changes.
use rapx_log.Prelude.{
  some-inj, ℕ, ◌≡◌, refl, sym, ap, subst, ◌∙◌, ◌⊎◌, inl, inr, ◌↔◌, ◌==◌, ==_iff, if◌then◌else◌,
  true, false, Bool-cases, none, some, Option-cases, List, [], ◌∷◌, length, get, put, contains_key,
  get-put, contains, insert, contains-insert,
}
use rapx_log.CallGraph.{Str, get_str, Node, CallGraphInfo, add_node, add_funciton_call_edge}
use rapx_log.CallGraph.Registry.{IsSound, InCalls, Calls, path_unique}
use rapx_log.CallGraph.Calls.{grown-IsSound, grown-Calls, new_path, old_path}

key_cases :
    (m : List (ℕ × List ℕ)) (k : ℕ)
    → ((v : List ℕ) × (contains_key m k ≡ true) × (get m k ≡ some v))
      ⊎ ((contains_key m k ≡ false) × (get m k ≡ none))
key_cases [] k = inr (refl, refl)
key_cases ((j, v) ∷ m) k = elim (Bool-cases (j == k)) [
  | inl same ↦ inl (v, rw same, rw same)
  | inr other ↦ elim (key_cases m k) [
    | inl (w, h, e) ↦ inl (w, rw other h, rw other e)
    | inr (h, e) ↦ inr (rw other h, rw other e)
  ]
]

module _ (info : CallGraphInfo) (i j : ℕ) where
  -- The map of the calls behind the edge, and the callees that there were.
  record Edge (m : List (ℕ × List ℕ)) (old : List ℕ) : Type 0 where
    made : add_funciton_call_edge i j info ≡ record info { function_calls = m }
    lookup : (c : ℕ) → get m c ≡ (if i == c then some (insert old j) else get info.function_calls c)
    callees : (x : ℕ) → (contains old x ≡ true) ↔ InCalls info i x

  call_made : (m : List (ℕ × List ℕ)) × (old : List ℕ) × Edge m old
  unfolding add_funciton_call_edge
  call_made = elim (key_cases info.function_calls i) [
    | inl (cs, key, at) ↦ (
      put info.function_calls i (insert cs j),
      cs,
      record {
        made = rw (key, at);
        lookup = λ c. get-put info.function_calls i c (insert cs j);
        callees = λ x. (
          λ h. (cs, at, h),
          λ (ds, at', h). subst (λ z. contains z x ≡ true) (some-inj (sym at' ∙ at)) h,
        );
      },
    )
    | inr (key, at) ↦
        let m = put info.function_calls i [] in
        let at_i : get m i ≡ some [] =
          get-put info.function_calls i i [] ∙ rw ((==_iff i i).1 refl) in
        (
          put m i (j ∷ []),
          [],
          record {
            made = rw (key, at_i);
            lookup = λ c. get-put m i c (j ∷ []) ∙ over c;
            callees =
                λ x. (λ h. cc, λ (ds, at', h). (let no : none ≡ some ds = sym at ∙ at' in cc));
          },
        )
  ]
    where
      over :
          (c : ℕ)
          → (if i == c then some (j ∷ []) else get (put info.function_calls i []) c)
            ≡ (if i == c then some (j ∷ []) else get info.function_calls c)
      over c = elim (Bool-cases (i == c)) [
        | inl same ↦ rw same
        | inr other ↦
            let e : get (put info.function_calls i []) c ≡ get info.function_calls c =
              get-put info.function_calls i c [] ∙ rw other in
            rw other e
      ]

  abbrev after : CallGraphInfo
  after = record info { function_calls = call_made.0 }

  in_after : (c x : ℕ) → InCalls after c x ↔ (InCalls info c x ⊎ ((i ≡ c) × (j ≡ x)))
  in_after c x =
      let edge = call_made.2 in
      let old = call_made.1 in
      elim (Bool-cases (i == c)) [
        | inl same ↦
            let i_c : i ≡ c = (==_iff i c).0 same in
            let e : get call_made.0 c ≡ some (insert old j) = edge.lookup c ∙ rw same in
            (
              λ (cs, at, h).
                  let h' : contains (insert old j) x ≡ true =
                    subst (λ z. contains z x ≡ true) (some-inj (sym at ∙ e)) h in
                  elim ((contains-insert old j x).0 h') [
                    | inl was ↦ inl (subst (λ z. InCalls info z x) i_c ((edge.callees x).0 was))
                    | inr new ↦ inr (i_c, sym new)
                  ],
              λ w. (
                insert old j,
                e,
                (contains-insert old j x).1 (elim w [
                  | inl was ↦ inl ((edge.callees x).1 (subst (λ z. InCalls info z x) (sym i_c) was))
                  | inr (k, new) ↦ inr (sym new)
                ]),
              ),
            )
        | inr other ↦
            let e : get call_made.0 c ≡ get info.function_calls c = edge.lookup c ∙ rw other in
            (
              λ (cs, at, h). inl (cs, sym e ∙ at, h),
              λ w. elim w [
                | inl (cs, at, h) ↦ (cs, e ∙ at, h)
                | inr (same, k) ↦ (let no : false ≡ true = sym other ∙ (==_iff i c).1 same in cc)
              ],
            )
      ]

  module _ (sound : IsSound info) (p t : Str) (at_p : get_str info.node_registry p ≡ some i)
      (at_t : get_str info.node_registry t ≡ some j) where
    after-Calls : (q u : Str) → Calls after q u ↔ (Calls info q u ⊎ ((q ≡ p) × (u ≡ t)))
    after-Calls q u = (
      λ (c, x, hq, calls, hu). elim ((in_after c x).0 calls) [
        | inl was ↦ inl (c, x, hq, was, hu)
        | inr (same, same') ↦ inr (
          path_unique info q p c sound hq (at_p ∙ ap some same),
          path_unique info u t x sound hu (at_t ∙ ap some same'),
        )
      ],
      λ w. elim w [
        | inl (c, x, hq, calls, hu) ↦ (c, x, hq, (in_after c x).1 (inl calls), hu)
        | inr (same, same') ↦ (
          i,
          j,
          subst (λ z. get_str info.node_registry z ≡ some i) (sym same) at_p,
          (in_after i j).1 (inr (refl, refl)),
          subst (λ z. get_str info.node_registry z ≡ some j) (sym same') at_t,
        )
      ],
    )

    after-IsSound : IsSound after
    after-IsSound = record {
      paths = sound.paths;
      ids = sound.ids;
      calls = λ c cs at. (caller c cs at, λ x m. callee c x (cs, at, m));
    }
      where
        node_at :
            (q : Str) (k : ℕ)
            → get_str info.node_registry q ≡ some k
            → (v : Node) × (get info.functions k ≡ some v)
        node_at q k at = (let (v, there, e) = sound.paths q k at in (v, there))

        caller :
            (c : ℕ) (cs : List ℕ)
            → get call_made.0 c ≡ some cs
            → (v : Node) × (get info.functions c ≡ some v)
        caller c cs at = elim (Bool-cases (i == c)) [
          | inl same ↦ node_at p c (at_p ∙ ap some ((==_iff i c).0 same))
          | inr other ↦ (sound.calls c cs (sym (call_made.2.lookup c ∙ rw other) ∙ at)).0
        ]

        callee : (c x : ℕ) → InCalls after c x → (v : Node) × (get info.functions x ≡ some v)
        callee c x w = elim ((in_after c x).0 w) [
          | inl (ds, at, m) ↦ (sound.calls c ds at).1 x m
          | inr (same, same') ↦ node_at t x (at_t ∙ ap some same')
        ]

    -- The edge makes the one call, and the graph stays sound.
    pub add_funciton_call_edge-Calls :
        IsSound (add_funciton_call_edge i j info)
        × ((q u : Str)
            → Calls (add_funciton_call_edge i j info) q u ↔ (Calls info q u ⊎ ((q ≡ p) × (u ≡ t))))
        × ((add_funciton_call_edge i j info).node_registry ≡ info.node_registry)
    add_funciton_call_edge-Calls =
        let e = call_made.2.made in
        (
          subst IsSound (sym e) after-IsSound,
          λ q u.
              subst (λ z. Calls z q u ↔ (Calls info q u ⊎ ((q ≡ p) × (u ≡ t)))) (sym e)
                (after-Calls q u),
          ap (λ z. z.node_registry) e,
        )

-- Behind `add_node` the path is registered, and the calls are those that there were.
pub add_node-Calls :
    (info : CallGraphInfo) (def_id : ℕ) (path : Str)
    → IsSound info
    → IsSound (add_node def_id path info)
      × ((q u : Str) → Calls (add_node def_id path info) q u ↔ Calls info q u)
      × ((k : ℕ) × (get_str (add_node def_id path info).node_registry path ≡ some k))
      × ((q : Str) (k : ℕ)
          → get_str info.node_registry q ≡ some k
          → get_str (add_node def_id path info).node_registry q ≡ some k)
unfolding add_node
add_node-Calls info def_id path sound = elim (Option-cases (get_str info.node_registry path)) [
  | inl absent ↦ rw absent (
    grown-IsSound info sound def_id path absent,
    grown-Calls info sound def_id path absent,
    (length info.node_registry, new_path info sound def_id path absent),
    old_path info sound def_id path absent,
  )
  | inr (k, at) ↦ rw at (sound, λ q u. (λ w. w, λ w. w), (k, at), λ q k h. h)
]
