-- ===== src/CallGraph/Registry.antt =====
-- The registry of the call graph and its functions agree, and every call joins two of them.
use rapx_log.Prelude.{
  some-inj, ℕ, suc, ◌<◌, ◌≡◌, refl, sym, ap, subst, ◌∙◌, inl, inr, ◌↔◌, ◌==◌, ==_iff, if◌then◌else◌,
  true, false, Bool-cases, none, some, List, [], ◌∷◌, length, get, contains,
}
use rapx_log.CallGraph.{Str, same_str, get_str, put_str, Node, CallGraphInfo}

same_str-eq : (a b : Str) → same_str a b ≡ true → a ≡ b
same_str-eq [] [] h = refl
same_str-eq [] (y ∷ ys) h = cc
same_str-eq (x ∷ xs) [] h = cc
same_str-eq (x ∷ xs) (y ∷ ys) h = elim (Bool-cases (x == y)) [
  | inl same ↦
      let head : x ≡ y = (==_iff x y).0 same in
      let tail : xs ≡ ys = same_str-eq xs ys (rw same at h) in rw (head, tail)
  | inr other ↦ (let no : false ≡ true = rw other at h in cc)
]

same_str_refl : (a : Str) → same_str a a ≡ true
same_str_refl [] = refl
same_str_refl (x ∷ xs) = rw ((==_iff x x).1 refl) (same_str_refl xs)

pub same_str_iff : (a b : Str) → (same_str a b ≡ true) ↔ (a ≡ b)
same_str_iff a b = (same_str-eq a b, λ e. subst (λ z. same_str a z ≡ true) e (same_str_refl a))

pub same_str-no : (a b : Str) → (a ≡ b → ⊥) → same_str a b ≡ false
same_str-no a b h = elim (Bool-cases (same_str a b)) [
  | inl same ↦ absurd (h (same_str-eq a b same))
  | inr other ↦ other
]

-- An insertion at a path that is not there.
pub get_str-put_str :
    (m : List (Str × ℕ)) (k j : Str) (v : ℕ)
    → get_str m k ≡ none
    → get_str (put_str m k v) j ≡ (if same_str k j then some v else get_str m j)
get_str-put_str [] k j v h = refl
get_str-put_str ((i, w) ∷ m) k j v h = elim (Bool-cases (same_str i k)) [
  | inl same ↦ (let no : some w ≡ none = rw same at h in cc)
  | inr other ↦ elim (Bool-cases (same_str i j)) [
    | inl same ↦
        let differs : same_str k j ≡ false = same_str-no k j (λ e.
          let both : same_str i k ≡ true = subst (λ z. same_str i z ≡ true) (sym e) same in
          let no : true ≡ false = sym both ∙ other in cc) in
        rw (other, differs, same, put_str)
    | inr differs ↦ rw (other, differs, put_str) (get_str-put_str m k j v (rw other at h))
  ]
]

pub length-put_str :
    (m : List (Str × ℕ)) (k : Str) (v : ℕ)
    → get_str m k ≡ none
    → length (put_str m k v) ≡ suc (length m)
length-put_str [] k v h = refl
length-put_str ((j, w) ∷ m) k v h = elim (Bool-cases (same_str j k)) [
  | inl same ↦ (let no : some w ≡ none = rw same at h in cc)
  | inr other ↦ rw other (ap suc (length-put_str m k v (rw other at h)))
]

pub record IsSound (info : CallGraphInfo) : Type 0 where
  -- a path that is registered leads to a function of that path
  pub paths :
      (p : Str) (i : ℕ)
      → get_str info.node_registry p ≡ some i
      → (v : Node) × (get info.functions i ≡ some v) × (v.def_path ≡ p)
  -- a function is registered, under its number
  pub ids :
      (i : ℕ) (v : Node)
      → get info.functions i ≡ some v
      → (get_str info.node_registry v.def_path ≡ some i) × (i < length info.node_registry)
  pub calls :
      (c : ℕ) (cs : List ℕ)
      → get info.function_calls c ≡ some cs
      → ((v : Node) × (get info.functions c ≡ some v))
        × ((j : ℕ) → contains cs j ≡ true → (v : Node) × (get info.functions j ≡ some v))

-- The numbers of the functions that a function calls.
abbrev pub InCalls : CallGraphInfo → ℕ → ℕ → Type 0
InCalls info c j = (cs : List ℕ) × (get info.function_calls c ≡ some cs) × (contains cs j ≡ true)

-- The function at the one path calls the one at the other.
abbrev pub Calls : CallGraphInfo → Str → Str → Type 0
Calls info p t =
    (i : ℕ) × (j : ℕ) × (get_str info.node_registry p ≡ some i)
    × InCalls info i j
    × (get_str info.node_registry t ≡ some j)

-- A number stands for one path.
pub path_unique :
    (info : CallGraphInfo) (p q : Str) (i : ℕ)
    → IsSound info
    → get_str info.node_registry p ≡ some i
    → get_str info.node_registry q ≡ some i
    → p ≡ q
path_unique info p q i sound hp hq =
    let (v, at, e) = sound.paths p i hp in
    let (w, at', f) = sound.paths q i hq in
    sym e ∙ ap (λ z. z.def_path) (some-inj (sym at ∙ at')) ∙ f
