-- ===== src/Fd/Creation.antt =====
-- Opening a path that has to be made first (kernel/fs/fd.cpp).
use crep_os.Base.{ℕ, ◌+◌, ◌<◌, ◌≡◌, refl, false, none, some, ◌==◌, length, bit_and}
use crep_os.Text.{Text}
use crep_os.Text.Path.{nonempty, pieces}
use crep_os.Vfs.Nodes.{Vfs, root_node, search_absolute}
use crep_os.Vfs.Create.{IsVfs, Extends}
use crep_os.Vfs.Lookup.{Reached, node_ctor-search_absolute}
use crep_os.Fd.Table.{FsCalls, Files}
use crep_os.Fd.Open.{o_creat, open_node, open_new, fd_ctor}

module _ {D : Type 0} (calls : FsCalls D) (fuel : ℕ) (path : Text) where
  abbrev pub with_vfs : Vfs → Files D → Files D
  with_vfs vfs s = record s { world = record (s.world) { vfs = vfs } }

  -- On a sound tree of nodes and with fuel enough, opening a path that is not there with
  -- `o_creat` makes its nodes and comes to opening a node that the path reaches in a sound tree;
  -- the second `enoent` is never met.
  pub fd_ctor-open_node :
      (flags backing_fd : ℕ) (s : Files D)
      → IsVfs s.world.vfs
      → 0 < length s.world.vfs.nodes
      → length path < fuel
      → length s.world.vfs.nodes + length (nonempty (pieces path)) < fuel
      → (bit_and flags o_creat == 0) ≡ false
      → search_absolute fuel s.world.vfs.nodes path ≡ some none
      → (vfs : Vfs) × (node : ℕ) × (fd_ctor calls fuel path flags backing_fd s
          ≡ open_node calls fuel path flags backing_fd node (with_vfs vfs s))
        × IsVfs vfs
        × Extends s.world.vfs.nodes vfs.nodes
        × Reached vfs.nodes root_node (nonempty (pieces path)) node
  unfolding fd_ctor open_new
  fd_ctor-open_node flags backing_fd s w root short enough creat missing =
      let (vfs, e, sound, extends, (node, f, reached)) =
        node_ctor-search_absolute fuel s.world.vfs path none w root short enough in
      (vfs, node, rw (missing, fd_ctor, creat, e, open_new, f) refl, sound, extends, reached)
