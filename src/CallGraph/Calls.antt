-- ===== src/CallGraph/Calls.antt =====
-- What the operations of the call graph make of its calls.
use rapx_log.Prelude.{
  some-inj, ℕ, ◌≡◌, refl, sym, ap, subst, ◌∙◌, ◌⊎◌, inl, inr, ◌↔◌, ◌==◌, ==_iff, false, Bool-cases,
  none, some, length, get, get-put, arith,
}
use rapx_log.CallGraph.{Str, same_str, get_str, Node, CallGraphInfo, with_node}
use rapx_log.CallGraph.Registry.{
  IsSound, Calls, same_str_iff, same_str-no, get_str-put_str, length-put_str,
}

-- A path that is not registered gets the next number.
module _ (info : CallGraphInfo) (sound : IsSound info) (def_id : ℕ) (path : Str)
    (absent : get_str info.node_registry path ≡ none) where
  abbrev next : ℕ
  next = length info.node_registry

  abbrev grown : CallGraphInfo
  grown = with_node def_id path info none

  old_function : (i : ℕ) (v : Node) → get info.functions i ≡ some v → get grown.functions i ≡ some v
  old_function i v at =
      let (reg, lt) = sound.ids i v at in
      let differs : (next == i) ≡ false = ground (arith, lt) in
      get-put info.functions next i _ ∙ rw differs at

  pub old_path :
      (p : Str) (i : ℕ)
      → get_str info.node_registry p ≡ some i
      → get_str grown.node_registry p ≡ some i
  old_path p i at =
      let differs : same_str path p ≡ false =
        same_str-no path p (λ e.
          let no : none ≡ some i = sym absent ∙ ap (get_str info.node_registry) e ∙ at in cc) in
      get_str-put_str info.node_registry path p next absent ∙ rw differs at

  pub new_path : get_str grown.node_registry path ≡ some next
  new_path =
      get_str-put_str info.node_registry path path next absent
      ∙ rw ((same_str_iff path path).1 refl)

  path_cases :
      (p : Str) (i : ℕ)
      → get_str grown.node_registry p ≡ some i
      → (get_str info.node_registry p ≡ some i) ⊎ ((path ≡ p) × (next ≡ i))
  path_cases p i at = elim (Bool-cases (same_str path p)) [
    | inl same ↦
        let e = sym (get_str-put_str info.node_registry path p next absent) ∙ at in
        inr ((same_str_iff path p).0 same, some-inj (rw same at e))
    | inr other ↦
        let e = sym (get_str-put_str info.node_registry path p next absent) ∙ at in
        inl (rw other at e)
  ]

  function_cases :
      (i : ℕ) (v : Node)
      → get grown.functions i ≡ some v
      → (get info.functions i ≡ some v)
        ⊎ ((next ≡ i) × (record { def_id = def_id; def_path = path } ≡ v))
  function_cases i v at = elim (Bool-cases (next == i)) [
    | inl same ↦
        let e = sym (get-put info.functions next i _) ∙ at in
        inr ((==_iff next i).0 same, some-inj (rw same at e))
    | inr other ↦ let e = sym (get-put info.functions next i _) ∙ at in inl (rw other at e)
  ]

  pub grown-IsSound : IsSound grown
  grown-IsSound = record {
    paths = λ p i at. elim (path_cases p i at) [
      | inl old ↦ let (v, there, e) = sound.paths p i old in (v, old_function i v there, e)
      | inr (same, n) ↦ (
        record { def_id = def_id; def_path = path },
        get-put info.functions next i _ ∙ rw ((==_iff next i).1 n),
        same,
      )
    ];
    ids = λ i v at. elim (function_cases i v at) [
      | inl old ↦
          let (reg, lt) = sound.ids i v old in
          (
            old_path v.def_path i reg,
            omega (arith, lt, length-put_str info.node_registry path next absent),
          )
      | inr (n, same) ↦ (
        subst (λ z. get_str grown.node_registry z ≡ some i) (ap (λ z. z.def_path) same)
            (new_path ∙ ap some n),
        omega (arith, n, length-put_str info.node_registry path next absent),
      )
    ];
    calls = λ c cs at.
        let ((v, there), each) = sound.calls c cs at in
        (
          (v, old_function c v there),
          λ j m. (let (w, there') = each j m in (w, old_function j w there')),
        );
  }

  -- It calls nothing, and nothing calls it.
  pub grown-Calls : (p t : Str) → Calls grown p t ↔ Calls info p t
  grown-Calls p t = (
    λ (i, j, hp, (cs, at, m), ht).
        let ((v, there), each) = sound.calls i cs at in
        let (w, there') = each j m in
        (i, j, old_number p i v hp there, (cs, at, m), old_number t j w ht there'),
    λ (i, j, hp, calls, ht). (i, j, old_path p i hp, calls, old_path t j ht),
  )
    where
      old_number :
          (q : Str) (i : ℕ) (v : Node)
          → get_str grown.node_registry q ≡ some i
          → get info.functions i ≡ some v
          → get_str info.node_registry q ≡ some i
      old_number q i v h there = elim (path_cases q i h) [
        | inl old ↦ old
        | inr (same, n) ↦ absurd (omega (arith, n, (sound.ids i v there).1))
      ]
