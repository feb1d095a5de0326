-- ===== src/Fmem/Free.antt =====
-- `fmem_free`.
use memthing.Base.{
  ◌>>=◌, ℕ, Option, some, List, [], ◌∷◌, if◌then◌else◌, sub32, add64, ℤ, pos, is_nonzero,
}
use memthing.Memory.{Memory, set_fmem, sizeof_fmem_page, sizeof_list_head, list_of}
use memthing.Page.{
  poison, fpage_get_magic, fpage_set_free, fpage_merge, fpage_from_mem, Build, fail_on_poison_check,
}
use memthing.Fmem.Common.{
  e_commit_failed, CommitRange, range, fmem_lock, fmem_unlock, Committers, commit,
}

-- What is committed by `fmem_free`, read after the merge.
unfoldable pub free_ranges : Memory → (fpage modified : ℕ) → List CommitRange
free_ranges m fpage modified =
    range modified sizeof_fmem_page
    ∷ range (m.prev (list_of fpage)) sizeof_list_head
    ∷ range (m.next (list_of fpage)) sizeof_list_head
    ∷ []

-- `fmem_free` between its lock and its commit: the memory, and `modified`.
unfoldable pub give_page : Memory → (fm fpage : ℕ) → Memory × ℕ
give_page m fm fpage =
    let to_free = m.size fpage in
    let (m1, modified) = fpage_merge (fpage_set_free m fpage) fpage in
    let f = m1.fmem fm in
    let f' = record f {
      alloc_objects = sub32 f.alloc_objects 1;
      total_available = add64 f.total_available to_free;
    } in
    (set_fmem m1 fm f', modified)

module _ {W : Type 0} (committers : Committers W) where
  unfoldable pub fmem_free :
      Build → (fuel : ℕ) → Memory → W → (fm mem : ℕ) → Option (ℤ × Memory × W)
  fmem_free build fuel m w fm mem =
      let fpage = fpage_from_mem mem in
      let check = fail_on_poison_check build (fpage_get_magic m fpage) poison in
      if is_nonzero check then some (check, m, w) else do
        m1 ← fmem_lock fuel m fm
        let to_free = m1.size fpage
        let (m2, modified) = give_page m1 fm fpage
        let (ok, w') = commit committers m2 w fm (free_ranges m2 fpage modified) 3
        some (if ok then pos to_free else e_commit_failed, fmem_unlock m2 fm, w')
