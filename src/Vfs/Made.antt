-- ===== src/Vfs/Made.antt =====
-- The nodes that the loop over the names of a path makes (kernel/fs/vfs.cpp).
use crep_os.Base.{
  ℕ, ◌+◌, ◌-◌, ◌≤◌, ◌<◌, ◌≡◌, ◌∙◌, refl, subst, List, [], ◌∷◌, some, ltb, length, arith, inl, inr,
  Bool-cases,
}
use crep_os.Text.{Text}
use crep_os.Vfs.Nodes.{Node, Vfs, update, create_names, with_child}
use crep_os.Vfs.Chain.{Named, get-below, below-get}
use crep_os.Vfs.Create.{IsVfs, Extends, unchanged, create_node-Created}
use crep_os.Vfs.Joined.{length-set}
use crep_os.Vfs.Child.{with_child_at, child-IsVfs, child-Extends}

Extends-trans : (a b c : List Node) → Extends a b → Extends b c → Extends a c
Extends-trans a b c f g i n e =
    let (m, e', k) = f i n e in
    let (o, e'', l) = g i m e' in
    (
      o,
      e'',
      record {
        same_name = l.same_name ∙ k.same_name;
        same_parent = l.same_parent ∙ k.same_parent;
        same_path = l.same_path ∙ k.same_path;
        same_filesystem = l.same_filesystem ∙ k.same_filesystem;
      },
    )

pub Named-Extends :
    (a b : List Node) (i : ℕ) (name : Text) → Extends a b → Named a i name → Named b i name
Named-Extends a b i name f (n, e, h) = let (m, e', k) = f i n e in (m, e', k.same_name ∙ h)

pub Extends-length : (a b : List Node) → Extends a b → length a ≤ length b
Extends-length a b f = elim (Bool-cases (ltb 0 (length a))) [
  | inl e ↦
      let (n, g) = get-below a (length a - 1) (ground arith) in
      let (m, h, k) = f (length a - 1) n g in
      let inside = below-get b (length a - 1) m h in ground arith
  | inr e ↦ ground arith
]

-- The names stand from node `k` on.
abbrev pub NewNames : List Node → (k : ℕ) → List Text → Type 0
NewNames nodes k [] = Unit
NewNames nodes k (name ∷ names) = Named nodes k name × NewNames nodes (k + 1) names

NewNames-Extends :
    (a b : List Node) (k : ℕ) (names : List Text)
    → Extends a b
    → NewNames a k names
    → NewNames b k names
NewNames-Extends a b k [] f h = tt
NewNames-Extends a b k (name ∷ names) f (h, hs) =
    (Named-Extends a b k name f h, NewNames-Extends a b (k + 1) names f hs)

-- What holds of the nodes behind those of `vfs` after the constructor.
pub record Made (vfs : Vfs) (names : List Text) (vfs' : Vfs) : Type 0 where
  pub sound : IsVfs vfs'
  pub extends : Extends vfs.nodes vfs'.nodes
  pub made : NewNames vfs'.nodes (length vfs.nodes) names
  pub room : length vfs'.nodes ≤ length vfs.nodes + length names

pub create_names-Made :
    (fuel : ℕ) (vfs : Vfs) (parent_cur : ℕ) (names : List Text)
    → IsVfs vfs
    → parent_cur < length vfs.nodes
    → length vfs.nodes + length names < fuel
    → (vfs' : Vfs) × (create_names fuel vfs parent_cur names ≡ some vfs') × Made vfs names vfs'
unfolding create_names update
create_names-Made fuel vfs parent_cur [] w inside enough = (
  vfs,
  refl,
  record { sound = w; extends = λ i n e. (n, e, unchanged n); made = tt; room = omega arith },
)
create_names-Made fuel vfs parent_cur (name ∷ names) w inside enough =
    let (nodes, e, c) = create_node-Created vfs parent_cur name w fuel inside (omega arith) in
    let l = c.longer in
    let (p, f) = get-below nodes parent_cur (omega arith) in
    let middle =
      with_child_at (record vfs { nodes = nodes }) parent_cur p (some (length vfs.nodes)) in
    let total = length-set nodes parent_cur (with_child (some (length vfs.nodes)) p) in
    let (vfs', g, m) =
      create_names-Made fuel middle (length vfs.nodes) names
        (child-IsVfs (record vfs { nodes = nodes }) parent_cur p (some (length vfs.nodes)) f
          c.sound)
        (omega arith) (omega arith) in
    let onward =
      Extends-trans nodes middle.nodes vfs'.nodes
        (child-Extends (record vfs { nodes = nodes }) parent_cur p (some (length vfs.nodes)) f)
        m.extends in
    let count : length middle.nodes ≡ length vfs.nodes + 1 = omega arith in
    (
      vfs',
      rw (e, create_names, update, f) g,
      record {
        sound = m.sound;
        extends = Extends-trans vfs.nodes nodes vfs'.nodes c.extends onward;
        made = (
          Named-Extends nodes vfs'.nodes (length vfs.nodes) name onward
              (c.node, c.at_node, c.named),
          subst (λ k. NewNames vfs'.nodes k names) count m.made,
        );
        room = let r = m.room in omega arith;
      },
    )
