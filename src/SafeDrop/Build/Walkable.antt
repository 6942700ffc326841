-- ===== src/SafeDrop/Build/Walkable.antt =====
-- Every part of `SafeDropGraph::new` keeps the vectors in step, and so the graph is one to search.
use rapx_log.Prelude.{
  ℕ, ◌+◌, ◌<◌, ◌≡◌, refl, sym, ◌∙◌, ap, subst, inl, inr, Bool, true, false, Bool-cases, none, some,
  List, [], ◌∷◌, ◌++◌, length, length-append, get_elem?, get_elem?-some, contains_key, Option, ok,
  ◌>>=◌, >>=-eq-ok, or_panic, arith,
}
use mathlib.Core.List.Memᴰ
use rapx_log.Mir.{
  Ty, Place, Operand, copy, move, constant, Rvalue, use_, ref_, raw_ptr_, shallow_init_box, cast,
  aggregate, discriminant, other_rvalue, StatementKind, assign, other_statement, Statement,
  BasicBlockData, Body, TyCtxt,
}
use rapx_log.HeapItem.{AdtOwner}
use rapx_log.SafeDrop.State.{
  ValueNode, new_value, BlockNode, new_block, AssignType, copied, moved, init_box, SafeDropGraph,
}
use rapx_log.SafeDrop.State.Fields.{get_elem?-concat}
use rapx_log.SafeDrop.CheckBugs.Edges.{IsWalkable}
use rapx_log.SafeDrop.Build.{
  Building, local_values, indices, push_assign, shallow_box, push_operands, build_rvalue,
  build_statements, build_blocks, new, push_const, scalar_of, none_dead, build_terminator,
  modify_local,
}
use rapx_log.SafeDrop.Build.Initial.{
  indices-at, length-indices, IsFresh, Fresh, SameVectors-Fresh, kept, push_assign-SameVectors,
  get_elem?-values, length-local_values, length-none_dead,
}
use rapx_log.SafeDrop.State.Fields.{with_field, grown_fields, grown-length}

module _ (values : List ValueNode) (alias_set : List ℕ) (dead_record : List Bool)
    (fresh : IsFresh values alias_set dead_record) (lv key : ℕ) (l new_node : ValueNode)
    (at_lv : get_elem? values lv ≡ some l) (no_fields : new_node.fields ≡ []) where
  grown :
      IsFresh
        (with_field values lv key l ++ new_node ∷ [])
        (alias_set ++ length alias_set ∷ [])
        (dead_record ++ false ∷ [])
  grown = record {
    size = omega (
      arith,
      length-append alias_set (length alias_set ∷ []),
      grown-length values lv key l new_node,
      fresh.size,
    );
    dead_size = omega (
      arith,
      length-append dead_record (false ∷ []),
      grown-length values lv key l new_node,
      fresh.dead_size,
    );
    own = λ i p e. elim (get_elem?-concat alias_set (length alias_set) i e) [
      | inl old ↦ fresh.own i p old
      | inr (at_end, eq) ↦ eq ∙ sym at_end
    ];
    fields = λ i v f e m. omega (
      arith,
      grown-length values lv key l new_node,
      grown_fields values fresh.fields lv key l new_node at_lv no_fields i v f e m,
    );
  }

or_panic-ok {ℓ} : {A : Type ℓ} (o : Option A) {a : A} → or_panic o ≡ ok a → o ≡ some a
or_panic-ok none h = cc
or_panic-ok (some b) h = cc

shallow_box-Fresh : (b b' : Building) (lv : ℕ) → Fresh b → shallow_box b lv ≡ ok b' → Fresh b'
unfolding shallow_box
shallow_box-Fresh b b' lv fresh h =
    let (l, e, h1) = >>=-eq-ok (or_panic (get_elem? b.values lv)) _ h in
    elim (Bool-cases (contains_key l.fields 0)) [
      | inl there ↦ SameVectors-Fresh (kept (rw there at h1)) fresh
      | inr new_one ↦
          let n = length b.values in
          let node : ValueNode = record (new_value n lv false true) {
            birth = l.birth;
            field_id = 0;
          } in
          let h2 = rw new_one at h1 in
          SameVectors-Fresh (kept h2)
            (grown b.values b.alias_set b.dead_record fresh lv 0 l node (or_panic-ok _ e) refl)
    ]

push_operands-Fresh :
    (b b' : Building) (lv : Place) (span : ℕ) (xs : List Operand)
    → Fresh b
    → push_operands b lv span xs ≡ ok b'
    → Fresh b'
unfolding push_operands
push_operands-Fresh b b' lv span [] fresh h = SameVectors-Fresh (kept h) fresh
push_operands-Fresh b b' lv span (copy rv ∷ xs) fresh h =
    let (c, first, rest) = >>=-eq-ok (push_assign b lv rv copied span) _ h in
    push_operands-Fresh c b' lv span xs
      (SameVectors-Fresh (push_assign-SameVectors b c lv rv copied span first) fresh) rest
push_operands-Fresh b b' lv span (move rv ∷ xs) fresh h =
    let (c, first, rest) = >>=-eq-ok (push_assign b lv rv copied span) _ h in
    push_operands-Fresh c b' lv span xs
      (SameVectors-Fresh (push_assign-SameVectors b c lv rv copied span first) fresh) rest
push_operands-Fresh b b' lv span (constant c ∷ xs) fresh h =
    push_operands-Fresh b b' lv span xs fresh h

after_box :
    (b b' : Building) (lv rv : Place) (span : ℕ)
    → Fresh b
    → (shallow_box b lv.local >>= λ c. push_assign c lv rv init_box span) ≡ ok b'
    → Fresh b'
after_box b b' lv rv span fresh h =
    let (c, first, rest) = >>=-eq-ok (shallow_box b lv.local) _ h in
    SameVectors-Fresh (push_assign-SameVectors c b' lv rv init_box span rest)
      (shallow_box-Fresh b c lv.local fresh first)

module _ (b b' : Building) (lv : Place) (span : ℕ) (fresh : Fresh b) where
  pushed : (rv : Place) (atype : AssignType) → push_assign b lv rv atype span ≡ ok b' → Fresh b'
  pushed rv atype h = SameVectors-Fresh (push_assign-SameVectors b b' lv rv atype span h) fresh

  unchanged : ok b ≡ ok b' → Fresh b'
  unchanged h = SameVectors-Fresh (kept h) fresh

  constant_kept : (n : Option ℕ) → ok (push_const b lv.local n) ≡ ok b' → Fresh b'
  constant_kept none h = unchanged h
  constant_kept (some n) h = SameVectors-Fresh (kept h) fresh

  build_rvalue-Fresh : (r : Rvalue) → build_rvalue b lv span r ≡ ok b' → Fresh b'
  unfolding build_rvalue
  build_rvalue-Fresh (use_ (copy rv)) h = pushed rv copied h
  build_rvalue-Fresh (use_ (move rv)) h = pushed rv moved h
  build_rvalue-Fresh (use_ (constant c)) h = constant_kept (scalar_of c.const_) h
  build_rvalue-Fresh (ref_ rv) h = pushed rv copied h
  build_rvalue-Fresh (raw_ptr_ rv) h = pushed rv copied h
  build_rvalue-Fresh (shallow_init_box (copy rv)) h = after_box b b' lv rv span fresh h
  build_rvalue-Fresh (shallow_init_box (move rv)) h = after_box b b' lv rv span fresh h
  build_rvalue-Fresh (shallow_init_box (constant c)) h = shallow_box-Fresh b b' lv.local fresh h
  build_rvalue-Fresh (cast (copy rv)) h = pushed rv copied h
  build_rvalue-Fresh (cast (move rv)) h = pushed rv moved h
  build_rvalue-Fresh (cast (constant c)) h = unchanged h
  build_rvalue-Fresh (aggregate xs) h = push_operands-Fresh b b' lv span xs fresh h
  build_rvalue-Fresh (discriminant rv) h = SameVectors-Fresh (kept h) fresh
  build_rvalue-Fresh other_rvalue h = unchanged h

build_statements-Fresh :
    (b b' : Building) (ss : List Statement) → Fresh b → build_statements b ss ≡ ok b' → Fresh b'
unfolding build_statements
build_statements-Fresh b b' [] fresh h = SameVectors-Fresh (kept h) fresh
build_statements-Fresh b b' (s ∷ ss) fresh h =
    by_kind s.kind (λ c f e. build_statements-Fresh c b' ss f e) h
  where
    by_kind :
        (k : StatementKind)
        → ((c : Building) → Fresh c → build_statements c ss ≡ ok b' → Fresh b')
        → build_statements b (record s { kind = k } ∷ ss) ≡ ok b'
        → Fresh b'
    by_kind (assign lv rvalue) next h =
        let (c, first, rest) =
          >>=-eq-ok (build_rvalue (modify_local b lv.local) lv s.span rvalue) _ h in
        next c (build_rvalue-Fresh (modify_local b lv.local) c lv s.span fresh rvalue first) rest
    by_kind other_statement next h = next b fresh h

build_blocks-Fresh :
    (b b' : Building) (i : ℕ) (ds : List BasicBlockData) (blocks blocks' : List BlockNode)
    → Fresh b
    → build_blocks b i ds blocks ≡ ok (b', blocks')
    → Fresh b'
unfolding build_blocks
build_blocks-Fresh b b' i [] blocks blocks' fresh h =
    (let same : b ≡ b' = ground arith in subst Fresh same fresh)
build_blocks-Fresh b b' i (d ∷ ds) blocks blocks' fresh h =
    let (t, e1, h1) = >>=-eq-ok (or_panic d.terminator) _ h in
    let (c, e2, h2) =
      >>=-eq-ok (build_statements (record b { block = new_block i d.is_cleanup }) d.statements) _
        h1 in
    let (block, e3, h3) = >>=-eq-ok (build_terminator c.block t) _ h2 in
    build_blocks-Fresh c b' (i + 1) ds (blocks ++ block ∷ []) blocks'
      (build_statements-Fresh (record b { block = new_block i d.is_cleanup }) c d.statements fresh
        e2)
      h3

-- What `new` starts from.
initial :
    (tcx : TyCtxt) (tys : List Ty)
    → IsFresh (local_values tcx 0 tys) (indices 0 (length tys)) (none_dead tys)
initial tcx tys = record {
  size = length-indices 0 (length tys) ∙ sym (length-local_values tcx 0 tys);
  dead_size = length-none_dead tys ∙ sym (length-local_values tcx 0 tys);
  own = λ i p e. omega (arith, indices-at 0 (length tys) i p e);
  fields = λ i v f e m. absurd (Memᴰ.not-nil (rw (get_elem?-values tcx 0 i tys v e) at m));
}

ok_injective {ℓ} : {A : Type ℓ} {a b : A} → ok a ≡ ok b → a ≡ b
ok_injective h = cc

Fresh-IsWalkable :
    (g : SafeDropGraph)
    → IsFresh g.values g.alias_set g.dead_record
    → IsWalkable g
      × (length g.dead_record ≡ length g.values)
      × ((i : ℕ) → i < length g.values → get_elem? g.alias_set i ≡ some i)
Fresh-IsWalkable g fresh = (
  record {
    size = fresh.size;
    forest = record { descends = λ i p e. omega (arith, fresh.own i p e) };
    fields = fresh.fields;
  },
  fresh.dead_size,
  λ i lt.
      (let (p, e) = get_elem?-some g.alias_set i (omega (arith, fresh.size)) in
        e ∙ ap some (fresh.own i p e)),
)

-- What `new` returns is a graph to search: as many entries in the alias set and in the record of the
-- dead as values, every value alone in its alias set, and all fields are values.
pub new-IsWalkable :
    (body : Body) (tcx : TyCtxt) (def_id : ℕ) (owner : AdtOwner) (g : SafeDropGraph)
    → new body tcx def_id owner ≡ ok g
    → IsWalkable g
      × (length g.dead_record ≡ length g.values)
      × ((i : ℕ) → i < length g.values → get_elem? g.alias_set i ≡ some i)
unfolding new
new-IsWalkable body tcx def_id owner g h =
    let (r, run, rest) = >>=-eq-ok (build_blocks _ 0 body.basic_blocks []) _ h in
    let fresh =
      build_blocks-Fresh _ r.0 0 body.basic_blocks [] r.1 (initial tcx body.local_decls) run in
    Fresh-IsWalkable g (
      subst (λ (k : SafeDropGraph). IsFresh k.values k.alias_set k.dead_record) (ok_injective rest)
        fresh)
