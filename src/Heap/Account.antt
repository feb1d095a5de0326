-- ===== src/Heap/Account.antt =====
-- The accounting when a page is taken and when one is given back.
use memthing.Base.{add64, add32, sub64, sub32, ℕ, ◌+◌, ◌≡◌, List, arith}
use memthing.Memory.{Fmem}
use memthing.Blocks.{Block, total, free_bytes, busy_count, Sized}
use memthing.Blocks.Row.{busy_count-bound, free_bytes-le}
use memthing.Heap.Invariant.{IsAccount}

module _ (base : ℕ) (f : Fmem) (bs bs' : List Block) (n : ℕ) (same : total bs' ≡ total bs)
    (sized : Sized bs') (h : IsAccount base f bs) where
  pub taken-IsAccount :
      free_bytes bs' + n ≡ free_bytes bs
      → busy_count bs' ≡ busy_count bs + 1
      → IsAccount base
          (record f {
            total_available = sub64 f.total_available n;
            alloc_objects = add32 f.alloc_objects 1;
          })
          bs'
  taken-IsAccount free busy = record {
    span = omega (arith, h.span);
    small = h.small;
    fits = h.fits;
    least = h.least;
    most = h.most;
    available = omega (arith, h.available, h.span, h.small, free_bytes-le bs);
    objects = omega (arith, h.objects, h.span, h.small, busy_count-bound bs' sized);
  }

  pub given-IsAccount :
      free_bytes bs' ≡ free_bytes bs + n
      → busy_count bs' + 1 ≡ busy_count bs
      → IsAccount base
          (record f {
            alloc_objects = sub32 f.alloc_objects 1;
            total_available = add64 f.total_available n;
          })
          bs'
  given-IsAccount free busy = record {
    span = omega (arith, h.span);
    small = h.small;
    fits = h.fits;
    least = h.least;
    most = h.most;
    available = omega (arith, h.available, h.span, h.small, free_bytes-le bs');
    objects = omega (arith, h.objects, h.span, h.small, busy_count-bound bs' sized);
  }
