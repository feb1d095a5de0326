-- ===== src/Fmem/Commit.antt =====
-- `fmem_commit_user_data` and `fmem_commit_mem`.
use memthing.Base.{
  ◌-◌, negsuc, List, ◌^◌, is_negative, u64, ℕ, ◌*◌, [], ◌∷◌, ◌==◌, ltb, if◌then◌else◌, ℤ, pos,
  is_nonzero,
}
use memthing.Fmem.Common.{CommitRange, e_commit_failed, range, Committers, commit}
use memthing.Memory.{Memory, null, ptr_add, offsetof_user1}
use memthing.Page.{
  page_overhead, poison, fpage_actual, fpage_get_magic, fpage_from_mem, Build, fail_on_poison_check,
}

-- `(int64_t) n`
abbrev pub to_int64 : ℕ → ℤ
to_int64 n = let v = u64 n in if ltb v (2 ^ 63) then pos v else negsuc (2 ^ 64 - 1 - v)

-- The only range of an array, after a committer had it.
abbrev pub first_or : CommitRange → List CommitRange → CommitRange
first_or r [] = r
first_or r (changed ∷ _) = changed

module _ {W : Type 0} (committers : Committers W) where
  unfoldable pub fmem_commit_user_data : Build → Memory → W → (fm : ℕ) → ℤ × W
  unfolding fpage_from_mem fpage_get_magic fail_on_poison_check
  fmem_commit_user_data build m w fm =
      if (m.fmem fm).committer == null
      then (e_commit_failed, w)
      else (let check = fail_on_poison_check build (fpage_get_magic m (fpage_from_mem fm)) poison in
          if is_nonzero check
          then (check, w)
          else (let r = range (ptr_add fm offsetof_user1) (4 * 8) in
              let (res, w', ranges) = committers (m.fmem fm).committer (r ∷ []) 1 m w in
              (if is_negative res then e_commit_failed else to_int64 (first_or r ranges).len, w')))

  unfoldable pub fmem_commit_mem : Build → Memory → W → (fm mem len : ℕ) → ℤ × W
  unfolding fpage_from_mem fpage_get_magic fail_on_poison_check commit fpage_actual
  fmem_commit_mem build m w fm mem len =
      let fpage = fpage_from_mem mem in
      let check = fail_on_poison_check build (fpage_get_magic m fpage) poison in
      let page_size = fpage_actual m fpage in
      let len' = if len == 0 then page_size else len in
      if (m.fmem fm).committer == null
      then (e_commit_failed, w)
      else (if is_nonzero check
          then (check, w)
          else (if ltb (ptr_add (ptr_add fpage page_overhead) page_size) (ptr_add mem len')
              then (e_commit_failed, w)
              else (let (ok, w') = commit committers m w fm (range mem len' ∷ []) 1 in
                  (if ok then pos len' else e_commit_failed, w'))))
