-- ===== src/CallGraph/Callees.antt =====
-- `get_callees_path` reads the calls of a function.
use rapx_log.Prelude.{
  some-inj, ℕ, ◌≡◌, refl, sym, ap, subst, ◌∙◌, ◌⊎◌, inl, inr, ◌↔◌, ◌==◌, ==_iff, ◌||◌, Bool, true,
  false, Bool-cases, none, some, Option-cases, List, [], ◌∷◌, ◌++◌, get, contains, arith,
}
use rapx_log.CallGraph.{
  Str, same_str, get_str, contains_str, insert_str, paths_of, callees_of, get_callees_path, Node,
  CallGraphInfo,
}
use rapx_log.CallGraph.Registry.{IsSound, Calls, same_str_iff}

contains_str-concat :
    (s : List Str) (k t : Str) → contains_str (s ++ k ∷ []) t ≡ (contains_str s t || same_str k t)
contains_str-concat [] k t = elim (Bool-cases (same_str k t)) [ inl h ↦ rw h | inr h ↦ rw h ]
contains_str-concat (x ∷ s) k t = elim (Bool-cases (same_str x t)) [
  | inl h ↦ rw h
  | inr h ↦ rw h (contains_str-concat s k t)
]

contains_str-insert :
    (s : List Str) (k t : Str)
    → (contains_str (insert_str s k) t ≡ true) ↔ ((contains_str s t ≡ true) ⊎ (k ≡ t))
contains_str-insert s k t = elim (Bool-cases (contains_str s k)) [
  | inl there ↦ rw there (
    λ h. inl h,
    λ w. elim w [ inl h ↦ h | inr same ↦ subst (λ z. contains_str s z ≡ true) same there ],
  )
  | inr new ↦ rw (new, contains_str-concat s k t) (either (contains_str s t) (same_str_iff k t))
]
  where
    either :
        (a : Bool)
        → ((same_str k t ≡ true) ↔ (k ≡ t))
        → ((a || same_str k t) ≡ true) ↔ ((a ≡ true) ⊎ (k ≡ t))
    either true iff = (λ h. inl refl, λ w. refl)
    either false iff = (λ h. inr (iff.0 h), λ w. elim w [ inl e ↦ cc | inr e ↦ iff.1 e ])

-- A function of that path is among the numbers.
abbrev Named : CallGraphInfo → List ℕ → Str → Type 0
Named info ids t =
    (j : ℕ) × (v : Node) × (contains ids j ≡ true)
    × (get info.functions j ≡ some v)
    × (v.def_path ≡ t)

Named-cons :
    (info : CallGraphInfo) (id : ℕ) (ids : List ℕ) (t : Str)
    → Named info (id ∷ ids) t
    → ((v : Node) × (get info.functions id ≡ some v) × (v.def_path ≡ t)) ⊎ Named info ids t
Named-cons info id ids t (j, v, m, at, e) = elim (Bool-cases (id == j)) [
  | inl same ↦
      inl (v, subst (λ z. get info.functions z ≡ some v) (sym ((==_iff id j).0 same)) at, e)
  | inr other ↦ inr (j, v, rw other at m, at, e)
]

Named-tail :
    (info : CallGraphInfo) (id : ℕ) (ids : List ℕ) (t : Str)
    → Named info ids t
    → Named info (id ∷ ids) t
Named-tail info id ids t (j, v, m, at, e) = (j, v, ground (arith, m), at, e)

paths_of-Named :
    (info : CallGraphInfo) (ids : List ℕ) (acc : List Str) (t : Str)
    → (contains_str (paths_of info ids acc) t ≡ true)
      ↔ ((contains_str acc t ≡ true) ⊎ Named info ids t)
unfolding paths_of
paths_of-Named info [] acc t = (λ h. inl h, λ w. elim w [ inl h ↦ h | inr (j, v, m, at, e) ↦ cc ])
paths_of-Named info (id ∷ ids) acc t = elim (Option-cases (get info.functions id)) [
  | inl absent ↦
      let rec = paths_of-Named info ids acc t in
      rw absent (
        λ h. elim (rec.0 h) [
          | inl was ↦ inl was
          | inr named ↦ inr (Named-tail info id ids t named)
        ],
        λ w. rec.1 (elim w [
          | inl was ↦ inl was
          | inr named ↦ elim (Named-cons info id ids t named) [
            | inl (v, at, e) ↦ (let bad : none ≡ some v = sym absent ∙ at in cc)
            | inr later ↦ inr later
          ]
        ]),
      )
  | inr (v, at) ↦
      let rec = paths_of-Named info ids (insert_str acc v.def_path) t in
      let ins = contains_str-insert acc v.def_path t in
      rw at (
        λ h. elim (rec.0 h) [
          | inl was ↦ elim (ins.0 was) [
            | inl old ↦ inl old
            | inr same ↦ inr (id, v, ground arith, at, same)
          ]
          | inr named ↦ inr (Named-tail info id ids t named)
        ],
        λ w. rec.1 (elim w [
          | inl was ↦ inl (ins.1 (inl was))
          | inr named ↦ elim (Named-cons info id ids t named) [
            | inl (u, at', e) ↦
                inl (ins.1 (inr (ap (λ z. z.def_path) (some-inj (sym at ∙ at')) ∙ e)))
            | inr later ↦ inr later
          ]
        ]),
      )
]

-- On a graph whose registry and functions are in step, `get_callees_path` of a registered path returns
-- the set of the paths that it calls; of a path that is not registered it returns `None`.
pub get_callees_path-Calls :
    (info : CallGraphInfo) (p : Str)
    → IsSound info
    → (get_str info.node_registry p ≡ none → get_callees_path info p ≡ none)
      × ((i : ℕ)
          → get_str info.node_registry p ≡ some i
          → (ts : List Str) × (get_callees_path info p ≡ some ts)
            × ((t : Str) → (contains_str ts t ≡ true) ↔ Calls info p t))
unfolding get_callees_path callees_of
get_callees_path-Calls info p sound = (λ absent. rw absent, λ i at. registered i at)
  where
    of_calls :
        (i : ℕ) (cs : List ℕ) (t : Str)
        → get_str info.node_registry p ≡ some i
        → get info.function_calls i ≡ some cs
        → (contains_str (paths_of info cs []) t ≡ true) ↔ Calls info p t
    of_calls i cs t at calls = (
      λ h. elim ((paths_of-Named info cs [] t).0 h) [
        | inl e ↦ cc
        | inr (j, v, m, there, e) ↦ (
          i,
          j,
          at,
          (cs, calls, m),
          subst (λ z. get_str info.node_registry z ≡ some j) e (sound.ids j v there).0,
        )
      ],
      λ (k, j, at', (ds, calls', m), reg).
          let same : k ≡ i = some-inj (sym at' ∙ at) in
          let same' : ds ≡ cs = some-inj (sym calls' ∙ ap (get info.function_calls) same ∙ calls) in
          let (v, there, e) = sound.paths t j reg in
          (paths_of-Named info cs [] t).1
            (inr (j, v, subst (λ z. contains z j ≡ true) same' m, there, e)),
    )

    registered :
        (i : ℕ)
        → get_str info.node_registry p ≡ some i
        → (ts : List Str) × (get_callees_path info p ≡ some ts)
          × ((t : Str) → (contains_str ts t ≡ true) ↔ Calls info p t)
    registered i at = elim (Option-cases (get info.function_calls i)) [
      | inl absent ↦ (
        [],
        rw (at, absent),
        λ t. (
          λ h. cc,
          λ (k, j, at', (ds, calls', m), reg).
              let same : k ≡ i = some-inj (sym at' ∙ at) in
              let bad : none ≡ some ds =
                sym absent ∙ ap (get info.function_calls) (sym same) ∙ calls' in
              cc,
        ),
      )
      | inr (cs, calls) ↦ (paths_of info cs [], rw (at, calls), λ t. of_calls i cs t at calls)
    ]
