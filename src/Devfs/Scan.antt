-- ===== src/Devfs/Scan.antt =====
-- The partitions that scanning a device adds (kernel/fs/devfs.cpp).
use crep_os.Base.{
  ℕ, zero, suc, ◌+◌, ◌^◌, ◌<◌, ◌≡◌, ◌∙◌, refl, sym, ap, List, [], ◌∷◌, ◌++◌, map, Option, none,
  some, if◌then◌else◌, ◌==◌, Bool-cases, Option-cases, inl, inr, length, arith,
}
use crep_os.Memory.{load_le}
use crep_os.Text.{Text}
use crep_os.Text.Search.{append_number_lem}
use crep_os.Vfs.Nodes.{Vfs}
use crep_os.Vfs.Create.{IsVfs, Extends}
use crep_os.Vfs.Chain.{get-below, below-get}
use crep_os.Vfs.Lookup.{node_ctor-search_absolute}
use crep_os.Devfs.Partitions.{
  Msd, DevNode, DevState, partition_path, path_fuel, with_partition, add_partition, mbr_entry,
  gpt_entry, partition_loop, gpt_array, scan_partitions, dev_dir,
}

-- The tree is sound and has a root.
pub record IsReady (d : Msd) (vfs : Vfs) : Type 0 where
  pub sound : IsVfs vfs
  pub rooted : 0 < length vfs.nodes
  pub index : d.device_index < 2 ^ 63

partition_path-some :
    (d : Msd) (cnt : ℕ)
    → d.device_index < 2 ^ 63
    → cnt < 2 ^ 63
    → (path : Text) × (partition_path d cnt ≡ some path)
unfolding partition_path
partition_path-some d cnt low low' =
    let (ds, e, v, all) = append_number_lem (dev_dir ++ d.device_prefix) d.device_index low in
    let (es, e', v', all') =
      append_number_lem (((dev_dir ++ d.device_prefix) ++ ds) ++ (45 ∷ [])) cnt low' in
    ((((dev_dir ++ d.device_prefix) ++ ds) ++ (45 ∷ [])) ++ es, rw (e, partition_path) e')

Extends-rooted :
    (vfs vfs' : Vfs) → Extends vfs.nodes vfs'.nodes → 0 < length vfs.nodes → 0 < length vfs'.nodes
Extends-rooted vfs vfs' ext inside =
    let (n, e) = get-below vfs.nodes 0 inside in
    let (n', e', kept) = ext 0 n e in below-get vfs'.nodes 0 n' e'

add_partition_lem :
    (d : Msd) (st : DevState) (offset sectors : ℕ)
    → IsReady d st.vfs
    → st.partition_cnt < 2 ^ 63
    → (vfs : Vfs) × ((i : ℕ) × ((add_partition d st offset sectors
            ≡ some (with_partition d st vfs offset sectors (some i)))
          × IsReady d vfs))
unfolding add_partition
add_partition_lem d st offset sectors ready low =
    let (path, p) = partition_path-some d st.partition_cnt ready.index low in
    let (vfs, made, sound, ext, (i, found, reached)) =
      node_ctor-search_absolute (path_fuel st.vfs path) st.vfs path none ready.sound ready.rooted
        (omega arith) (omega arith) in
    (
      vfs,
      (
        i,
        (
          rw (p, add_partition, made, found) refl,
          record {
            sound = sound;
            rooted = Extends-rooted st.vfs vfs ext ready.rooted;
            index = ready.index;
          },
        ),
      ),
    )

-- The entries from `i` on that are in use.
abbrev pub in_use : (entry : ℕ → Option (ℕ × ℕ)) → (rounds i : ℕ) → List (ℕ × ℕ)
in_use entry zero i = []
in_use entry (suc rounds) i =
    let rest = in_use entry rounds (i + 1) in elim (entry i) [ none ↦ rest | some p ↦ p ∷ rest ]

abbrev pub placed : DevNode → ℕ × ℕ
placed n = (n.partition_offset, n.sector_cnt)

-- `st'` has the partitions of `st` and, in their order, those in the list.
pub record IsScanned (d : Msd) (st : DevState) (listed : List (ℕ × ℕ)) (st' : DevState)
    : Type 0 where
  pub ready : IsReady d st'.vfs
  pub partitions : map placed st'.node_list ≡ map placed st.node_list ++ listed
  pub count : st'.partition_cnt ≡ st.partition_cnt + length listed

map-append : (xs ys : List DevNode) → map placed (xs ++ ys) ≡ map placed xs ++ map placed ys
map-append [] ys = refl
map-append (x ∷ xs) ys = ap (λ zs. placed x ∷ zs) (map-append xs ys)

append-cons :
    (xs : List (ℕ × ℕ)) (p : ℕ × ℕ) (ys : List (ℕ × ℕ)) → (xs ++ (p ∷ [])) ++ ys ≡ xs ++ (p ∷ ys)
append-cons [] p ys = refl
append-cons (x ∷ xs) p ys = ap (λ zs. x ∷ zs) (append-cons xs p ys)

append-nil : (xs : List (ℕ × ℕ)) → xs ++ [] ≡ xs
append-nil [] = refl
append-nil (x ∷ xs) = ap (λ zs. x ∷ zs) (append-nil xs)

nothing-IsScanned : (d : Msd) (st : DevState) → IsReady d st.vfs → IsScanned d st [] st
nothing-IsScanned d st ready = record {
  ready = ready;
  partitions = sym (append-nil (map placed st.node_list));
  count = omega arith;
}

one_more-IsScanned :
    (d : Msd) (st : DevState) (vfs : Vfs) (offset sectors : ℕ) (found : Option ℕ)
    (listed : List (ℕ × ℕ)) (st' : DevState)
    → st.partition_cnt + 1 < 2 ^ 63
    → IsScanned d (with_partition d st vfs offset sectors found) listed st'
    → IsScanned d st ((offset, sectors) ∷ listed) st'
one_more-IsScanned d st vfs offset sectors found listed st' low r = record {
  ready = r.ready;
  partitions =
      r.partitions
      ∙ ap (λ xs. xs ++ listed) (map-append st.node_list _)
      ∙ append-cons (map placed st.node_list) (offset, sectors) listed;
  count = let c = r.count in let cnt = st.partition_cnt in omega arith;
}

module _ (entry : ℕ → Option (ℕ × ℕ)) (d : Msd) where
  partition_loop-IsScanned :
      (rounds i : ℕ) (st : DevState)
      → IsReady d st.vfs
      → st.partition_cnt + rounds < 2 ^ 63
      → (st' : DevState) × ((partition_loop entry d rounds i st ≡ some st')
          × IsScanned d st (in_use entry rounds i) st')
  unfolding partition_loop
  partition_loop-IsScanned zero i st ready low = (st, (refl, nothing-IsScanned d st ready))
  partition_loop-IsScanned (suc rounds) i st ready low = elim (Option-cases (entry i)) [
    | inl unused ↦
        let (st', (e, r)) = partition_loop-IsScanned rounds (i + 1) st ready (omega arith) in
        (st', (rw (unused, partition_loop) e, rw (unused, in_use) r))
    | inr ((offset, sectors), used) ↦
        let (vfs, (node, (e, ready'))) =
          add_partition_lem d st offset sectors ready (omega arith) in
        let (st', (f, r)) =
          partition_loop-IsScanned rounds (i + 1)
            (with_partition d st vfs offset sectors (some node)) ready' (omega arith) in
        (
          st',
          (
            rw (used, partition_loop, e) f,
            rw (used, in_use)
                (one_more-IsScanned d st vfs offset sectors (some node)
                  (in_use entry rounds (i + 1)) st' (omega arith) r),
          ),
        )
  ]

-- The partitions of the table that a device has.
unfoldable pub listed : Msd → List (ℕ × ℕ)
listed d =
    if load_le d.disk 510 2 == 43605
    then in_use (mbr_entry d) 4 0
    else if load_le d.disk d.sector_size 8 == 4991757640121012820
    then in_use (gpt_entry d (gpt_array d)) (load_le d.disk (d.sector_size + 80) 4) 0
    else []

-- For a sound tree of nodes with a root, and numbers of devices and partitions below 2^63, scanning
-- a device ends; the tree stays sound, the list of partitions is extended by the entries in use of
-- the table that the device has (the four of an MBR where its signature is there, else those of a
-- GUID table), in their order, and their count is added to that of the device.
pub scan_partitions-IsScanned :
    (d : Msd) (st : DevState)
    → IsReady d st.vfs
    → st.partition_cnt + 4 + load_le d.disk (d.sector_size + 80) 4 < 2 ^ 63
    → (st' : DevState) × ((scan_partitions d st ≡ some st') × IsScanned d st (listed d) st')
unfolding scan_partitions listed
scan_partitions-IsScanned d st ready low = elim (Bool-cases (load_le d.disk 510 2 == 43605)) [
  | inl mbr ↦ rw mbr (partition_loop-IsScanned (mbr_entry d) d 4 0 st ready (omega arith))
  | inr other ↦ elim (Bool-cases (load_le d.disk d.sector_size 8 == 4991757640121012820)) [
    | inl gpt ↦
        rw (other, gpt)
          (partition_loop-IsScanned (gpt_entry d (gpt_array d)) d
            (load_le d.disk (d.sector_size + 80) 4) 0 st ready (omega arith))
    | inr neither ↦ rw (other, neither) (st, (refl, nothing-IsScanned d st ready))
  ]
]
