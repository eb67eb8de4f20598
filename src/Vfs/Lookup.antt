-- ===== src/Vfs/Lookup.antt =====
-- Looking up the nodes that the constructor with a path makes (kernel/fs/vfs.cpp).
use crep_os.Base.{
  ℕ, ◌+◌, ◌≤◌, ◌<◌, ◌≡◌, ◌∙◌, refl, sym, ap, subst, List, [], ◌∷◌, Option, none, some, ◌==◌, ltb,
  length, arith, inl, inr, Bool-cases, some-inj, ==_iff,
}
use crep_os.Text.{Text, same}
use crep_os.Text.Path.{slash, sub_paths_lem, nonempty, pieces}
use crep_os.Vfs.Nodes.{
  Node, Vfs, root_node, descend, node_ctor, search_relative, search_names, search_absolute,
}
use crep_os.Vfs.Chain.{
  IsChain, Named, FirstFrom, same_iff, get-below, below-get, search_relative-FirstFrom,
}
use crep_os.Vfs.Create.{IsVfs, Extends, unchanged}
use crep_os.Vfs.Made.{Named-Extends, Extends-length, NewNames, create_names-Made}

-- From `cur`, a node of each name in turn is found, and the last of them is `i`.
abbrev pub Reached : List Node → (cur : ℕ) → List Text → (i : ℕ) → Type 0
Reached nodes cur [] i = cur ≡ i
Reached nodes cur (name ∷ names) i = (j : ℕ) × Named nodes j name × Reached nodes j names i

Found : (fuel : ℕ) → List Node → (cur : ℕ) → List Text → Type 0
Found fuel nodes cur names =
    (i : ℕ) × (search_names fuel nodes cur names ≡ some (some i)) × Reached nodes cur names i

search_names-on :
    (fuel : ℕ) (nodes : List Node) (cur j : ℕ) (name : Text) (names : List Text)
    → search_relative fuel nodes cur name ≡ some (some j)
    → Named nodes j name
    → Found fuel nodes j names
    → Found fuel nodes cur (name ∷ names)
unfolding search_names Found
search_names-on fuel nodes cur j name names e n (i, f, r) = (i, rw (e, search_names) f, (j, n, r))

first-by :
    (nodes : List Node) (from k : ℕ) (name : Text) (o : Option ℕ)
    → FirstFrom nodes from name o
    → from ≤ k
    → Named nodes k name
    → (i : ℕ) × (o ≡ some i) × (i ≤ k) × Named nodes i name
first-by nodes from k name none first le h = absurd (first k le h)
first-by nodes from k name (some i) (above, n, first) le h = elim (Bool-cases (ltb k i)) [
  | inl e ↦ absurd (first k le (ground arith) h)
  | inr e ↦ (i, refl, ground arith, n)
]

-- Names that stand on the chain behind `cur`, each behind the one before, are found.
search_names-NewNames :
    (fuel : ℕ) (nodes : List Node) (cur k : ℕ) (names : List Text)
    → IsChain nodes
    → length nodes < fuel
    → cur < length nodes
    → cur < k
    → NewNames nodes k names
    → Found fuel nodes cur names
unfolding Found search_names
search_names-NewNames fuel nodes cur k [] w enough inside before h = (cur, refl, refl)
search_names-NewNames fuel nodes cur k (name ∷ names) w enough inside before (h, hs) =
    let (n, e) = get-below nodes cur inside in
    let older = w.older cur n e in
    let (o, f, first) = search_relative-FirstFrom nodes name fuel cur n w e enough in
    let (i, g, le, h') = first-by nodes (n.parent + 1) k name o first (omega arith) h in
    search_names-on fuel nodes cur i name names (f ∙ ap some g) h' (
      search_names-NewNames fuel nodes i (k + 1) names w enough
        (let (m, e', _) = h' in below-get nodes i m e') (omega arith) hs)

-- A node that was the first of its name stays so behind new nodes.
first_stays :
    (a b : List Node) (from i : ℕ) (name : Text) (o : Option ℕ)
    → Extends a b
    → FirstFrom a from name (some i)
    → FirstFrom b from name o
    → o ≡ some i
first_stays a b from i name none f (above, n, first) first' =
    absurd (first' i above (Named-Extends a b i name f n))
first_stays a b from i name (some j) f (above, n, first) (above', n', first') =
    elim (Bool-cases (i == j)) [
      | inl e ↦ ap some (sym ((==_iff i j).0 e))
      | inr e ↦ elim (Bool-cases (ltb i j)) [
        | inl l ↦ absurd (first' i above (ground arith) (Named-Extends a b i name f n))
        | inr l ↦ absurd (
            first j above' (ground arith)
              (older_Named (let (m, q, _) = n in let b = below-get a i m q in ground arith)))
      ]
    ]
  where
    older_Named : j < length a → Named a j name
    older_Named h =
        let (m, e) = get-below a j h in
        let (m', e', k) = f j m e in
        let (m'', e'', g) = n' in
        (m, e, sym k.same_name ∙ ap (λ x. x.name) (some-inj m' m'' (sym e' ∙ e'')) ∙ g)

search_relative-Extends :
    (fuel : ℕ) (a b : List Node) (cur i : ℕ) (name : Text)
    → IsChain a
    → IsChain b
    → Extends a b
    → length a < fuel
    → length b < fuel
    → cur < length a
    → search_relative fuel a cur name ≡ some (some i)
    → (search_relative fuel b cur name ≡ some (some i)) × Named b i name
search_relative-Extends fuel a b cur i name w w' f enough enough' inside e =
    let (n, g) = get-below a cur inside in
    let (n', g', k) = f cur n g in
    let (o, h, first) = search_relative-FirstFrom a name fuel cur n w g enough in
    let (o', h', first') = search_relative-FirstFrom b name fuel cur n' w' g' enough' in
    let found = subst (FirstFrom a (n.parent + 1) name) (some-inj o (some i) (sym h ∙ e)) first in
    let start = subst (λ p. FirstFrom b (p + 1) name o') k.same_parent first' in
    (
      h' ∙ ap some (first_stays a b (n.parent + 1) i name o' f found start),
      Named-Extends a b i name f found.1,
    )

-- What holds after the constructor has gone down the names from `cur`.
record Descended (fuel : ℕ) (vfs : Vfs) (cur : ℕ) (names : List Text) (vfs' : Vfs) : Type 0 where
  sound : IsVfs vfs'
  extends : Extends vfs.nodes vfs'.nodes
  room : length vfs'.nodes ≤ length vfs.nodes + length names
  found : Found fuel vfs'.nodes cur names

descend-Descended :
    (fuel : ℕ) (vfs : Vfs) (cur : ℕ) (names : List Text)
    → IsVfs vfs
    → cur < length vfs.nodes
    → length vfs.nodes + length names < fuel
    → (vfs' : Vfs) × (descend fuel vfs cur names ≡ some vfs') × Descended fuel vfs cur names vfs'
unfolding descend Found search_names
descend-Descended fuel vfs cur [] w inside enough = (
  vfs,
  refl,
  record {
    sound = w;
    extends = λ i n e. (n, e, unchanged n);
    room = omega arith;
    found = (cur, refl, refl);
  },
)
descend-Descended fuel vfs cur (name ∷ names) w inside enough =
    let (n, e) = get-below vfs.nodes cur inside in
    let (o, f, first) =
      search_relative-FirstFrom vfs.nodes name fuel cur n w.chain e (omega arith) in
    by_search o (n.parent + 1) f first
      (λ i below. descend-Descended fuel vfs i names w below (omega arith))
  where
    by_search :
        (o : Option ℕ) (from : ℕ)
        → search_relative fuel vfs.nodes cur name ≡ some o
        → FirstFrom vfs.nodes from name o
        → ((i : ℕ)
            → i < length vfs.nodes
            → (vfs' : Vfs) × (descend fuel vfs i names ≡ some vfs')
              × Descended fuel vfs i names vfs')
        → (vfs' : Vfs) × (descend fuel vfs cur (name ∷ names) ≡ some vfs')
          × Descended fuel vfs cur (name ∷ names) vfs'
    by_search none from f first deeper =
        let (vfs', g, m) = create_names-Made fuel vfs cur (name ∷ names) w inside (omega arith) in
        let r = m.room in
        let grown : length vfs.nodes ≤ length vfs'.nodes =
          Extends-length vfs.nodes vfs'.nodes m.extends in
        (
          vfs',
          rw (f, descend) g,
          record {
            sound = m.sound;
            extends = m.extends;
            room = m.room;
            found =
                search_names-NewNames fuel vfs'.nodes cur (length vfs.nodes) (name ∷ names)
                  m.sound.chain (omega arith) (omega arith) inside m.made;
          },
        )
    by_search (some i) from f (above, (m, g, h), first) deeper =
        let (vfs', q, d) = deeper i (below-get vfs.nodes i m g) in
        let r = d.room in
        let (s, t) =
          search_relative-Extends fuel vfs.nodes vfs'.nodes cur i name w.chain d.sound.chain
            d.extends (omega arith) (omega arith) inside f in
        (
          vfs',
          rw (f, descend) q,
          record {
            sound = d.sound;
            extends = d.extends;
            room = omega arith;
            found = search_names-on fuel vfs'.nodes cur i name names s t d.found;
          },
        )

-- For a sound tree of nodes that has a root and for fuel enough, the constructor with a path ends;
-- the nodes stay sound, the old ones keep their places, names, parents, paths and file systems, and
-- `search_absolute` then reaches a node of each name of the path in turn.
pub node_ctor-search_absolute :
    (fuel : ℕ) (vfs : Vfs) (path : Text) (device : Option ℕ)
    → IsVfs vfs
    → 0 < length vfs.nodes
    → length path < fuel
    → length vfs.nodes + length (nonempty (pieces path)) < fuel
    → (vfs' : Vfs) × (node_ctor fuel vfs path device ≡ some vfs')
      × IsVfs vfs'
      × Extends vfs.nodes vfs'.nodes
      × ((i : ℕ) × (search_absolute fuel vfs'.nodes path ≡ some (some i))
          × Reached vfs'.nodes root_node (nonempty (pieces path)) i)
unfolding node_ctor search_absolute Found
node_ctor-search_absolute fuel vfs path device w inside short enough =
    let p = sub_paths_lem fuel path short in
    let (vfs', e, d) =
      descend-Descended fuel vfs root_node (nonempty (pieces path)) w inside enough in
    (
      vfs',
      rw (p, node_ctor) e,
      d.sound,
      d.extends,
      elim (Bool-cases (same path (slash ∷ []))) [
        | inl h ↦
            let is = (same_iff path (slash ∷ [])).0 h in
            (
              root_node,
              rw (h, search_absolute) refl,
              subst (λ q. Reached vfs'.nodes root_node (nonempty (pieces q)) root_node) (sym is)
                  refl,
            )
        | inr h ↦ let (i, f, r) = d.found in (i, rw (h, search_absolute, p) f, r)
      ],
    )
