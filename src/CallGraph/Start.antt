-- ===== src/CallGraph/Start.antt =====
-- The call graph of all bodies.
use rapx_log.Prelude.{ℕ, ◌≡◌, refl, subst, ap, ◌∙◌, ◌⊎◌, inl, inr, ◌↔◌, List, [], ◌∷◌}
use mathlib.Core.List.{Memᴰ}
use rapx_log.CallGraph.{Str, CallGraphInfo, empty_info}
use rapx_log.CallGraph.Visitor.{TyCtxt, TerminatorKind, visit, start}
use rapx_log.CallGraph.Registry.{IsSound, Calls}
use rapx_log.CallGraph.Visits.{CalledBy, visit-Calls}

-- A body of the function with path `q` has a call that leads to `u`.
abbrev pub CalledIn : TyCtxt → List (ℕ × List TerminatorKind) → Str → Str → Type 0
CalledIn tcx bodies q u =
    (d : ℕ) × (body : List TerminatorKind) × Memᴰ (d, body) bodies
    × (q ≡ tcx.def_path_str d)
    × CalledBy tcx d body u

start_from :
    (tcx : TyCtxt) (bodies : List (ℕ × List TerminatorKind)) (info : CallGraphInfo)
    → IsSound info
    → IsSound (start tcx bodies info)
      × ((q u : Str)
          → Calls (start tcx bodies info) q u ↔ (Calls info q u ⊎ CalledIn tcx bodies q u))
unfolding start
start_from tcx [] info sound = (
  sound,
  λ q u. (λ w. inl w, λ w. elim w [ inl calls ↦ calls | inr (d, body, m, same, c) ↦ elim m [ ] ]),
)
start_from tcx ((d, body) ∷ bodies) info sound =
    let (s, calls) = visit-Calls tcx d body info sound in
    let (s', calls') = start_from tcx bodies (visit tcx d body info) s in
    (
      s',
      λ q u. (
        λ w. out q u (calls q u).0 ((calls' q u).0 w),
        λ w. (calls' q u).1 (back q u (calls q u).1 w),
      ),
    )
  where
    out :
        (q u : Str)
        → (Calls (visit tcx d body info) q u
            → Calls info q u ⊎ ((q ≡ tcx.def_path_str d) × CalledBy tcx d body u))
        → (Calls (visit tcx d body info) q u ⊎ CalledIn tcx bodies q u)
        → Calls info q u ⊎ CalledIn tcx ((d, body) ∷ bodies) q u
    out q u f (inl calls) = elim (f calls) [
      | inl old ↦ inl old
      | inr (same, c) ↦ inr (d, body, Memᴰ.head refl, same, c)
    ]
    out q u f (inr (e, b, m, same, c)) = inr (e, b, Memᴰ.tail m, same, c)

    back :
        (q u : Str)
        → ((Calls info q u ⊎ ((q ≡ tcx.def_path_str d) × CalledBy tcx d body u))
            → Calls (visit tcx d body info) q u)
        → (Calls info q u ⊎ CalledIn tcx ((d, body) ∷ bodies) q u)
        → Calls (visit tcx d body info) q u ⊎ CalledIn tcx bodies q u
    back q u f (inl old) = inl (f (inl old))
    back q u f (inr (e, b, Memᴰ.head same', same, c)) = inl (
        f (
          inr (
            same ∙ ap (λ z. tcx.def_path_str z.0) same',
            subst (λ z. CalledBy tcx z.0 z.1 u) same' c,
          )))
    back q u f (inr (e, b, Memᴰ.tail m, same, c)) = inr (e, b, m, same, c)

pub empty_info-IsSound : IsSound empty_info
unfolding empty_info
empty_info-IsSound = record { paths = λ p i at. cc; ids = λ i v at. cc; calls = λ c cs at. cc }

-- The graph that `start` builds from nothing has the calls of the bodies and no others, by the paths of
-- the functions: the one at `q` calls the one at `u` just if a body of a function with path `q` has a
-- call that is entered under `u`. Its registry and its functions are in step.
pub start-Calls :
    (tcx : TyCtxt) (bodies : List (ℕ × List TerminatorKind))
    → IsSound (start tcx bodies empty_info)
      × ((q u : Str) → Calls (start tcx bodies empty_info) q u ↔ CalledIn tcx bodies q u)
unfolding empty_info
start-Calls tcx bodies =
    let (s, calls) = start_from tcx bodies empty_info empty_info-IsSound in
    (
      s,
      λ q u. (
        λ w. elim ((calls q u).0 w) [ inl (i, j, at, calls, reg) ↦ cc | inr c ↦ c ],
        λ c. (calls q u).1 (inr c),
      ),
    )
