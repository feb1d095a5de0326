-- ===== src/Fmem/Create.antt =====
-- `fmem_create_new` and `fmem_from_existing`.
use memthing.Base.{
  ℕ, ◌+◌, ◌*◌, [], ◌∷◌, ◌==◌, ltb, if◌then◌else◌, u32, u64, sub64, is_nonzero, to_ptr,
}
use memthing.Memory.{Memory, set_size, set_fmem, null, ptr_add, sizeof_fmem, list_of}
use memthing.LinkedList.{list_head_init, list_add_after}
use memthing.Page.{
  page_overhead, poison, fpage_get_magic, fpage_set_busy, fpage_set_free, mem_from_fpage, Build,
  fail_on_poison_check, poison_page,
}
use memthing.Fmem.Common.{
  min_total_allocation, default_min_alloc, e_total_allocation_size_too_small, e_commit_failed,
  e_bad_init_mem, range, fmem_unlock, Committers, commit,
}

-- The new allocator's memory, before it is committed.
unfoldable pub create : Build → Memory → (on_mem length min_alloc committer : ℕ) → Memory
create build m on_mem length min_alloc committer =
    let fm = mem_from_fpage on_mem in
    let m1 = set_size m on_mem (u32 (page_overhead + sizeof_fmem)) in
    let m2 = list_head_init m1 (list_of on_mem) in
    let f = m2.fmem fm in
    let m3 = set_fmem m2 fm (record f {
      total_size = length;
      total_available = sub64 length (2 * page_overhead + sizeof_fmem);
      min_alloc = if ltb min_alloc default_min_alloc then default_min_alloc else min_alloc;
      alloc_objects = 0;
      committer = if committer == null then f.committer else committer;
    }) in
    let m4 = fmem_unlock m3 fm in
    let main_fpage = ptr_add on_mem (m4.size on_mem) in
    let m5 = set_size m4 main_fpage (u32 (sub64 length (m4.size on_mem))) in
    let m6 = list_add_after m5 (list_of on_mem) (list_of main_fpage) in
    let m7 = fpage_set_free (fpage_set_busy m6 on_mem) main_fpage in
    poison_page build (poison_page build m7 on_mem) main_fpage

module _ {W : Type 0} (committers : Committers W) where
  unfoldable pub fmem_create_new :
      Build → Memory → W → (on_mem length min_alloc committer : ℕ) → ℕ × Memory × W
  fmem_create_new build m w on_mem length min_alloc committer =
      if ltb length min_total_allocation
      then (to_ptr e_total_allocation_size_too_small, m, w)
      else (if ltb length (u64 (min_alloc + 2 * page_overhead + sizeof_fmem))
          then (to_ptr e_bad_init_mem, m, w)
          else (let m' = create build m on_mem length min_alloc committer in
              let fm = mem_from_fpage on_mem in
              let header = range on_mem (page_overhead + sizeof_fmem + page_overhead) in
              let (ok, w') = commit committers m' w fm (header ∷ []) 1 in
              (if ok then fm else to_ptr e_commit_failed, m', w')))

-- The allocator that was left on `on_mem`: its object, and the memory with the new committer.
unfoldable pub fmem_from_existing : Build → Memory → (on_mem committer : ℕ) → ℕ × Memory
unfolding fpage_get_magic fail_on_poison_check fmem_unlock mem_from_fpage
fmem_from_existing build m on_mem committer =
    let check = fail_on_poison_check build (fpage_get_magic m on_mem) poison in
    if is_nonzero check
    then (to_ptr check, m)
    else (let fm = mem_from_fpage on_mem in
        let f = m.fmem fm in
        let f' = record f { committer = if committer == null then f.committer else committer } in
        (fm, fmem_unlock (set_fmem m fm f') fm))
