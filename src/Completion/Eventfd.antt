-- ===== src/Completion/Eventfd.antt =====
-- `io_uring_cq_eventfd_toggle` sets or clears its own flag and no other.
use liburing.Common.{
  ℕ, zero, suc, ◌<◌, ◌≡◌, refl, ◌∙◌, Bool, true, false, not, none, some, arith, has, has-bit_and,
  has-bit_or, Bool-cases, inl, inr,
}
use liburing.Common.Int.{pos, neg}
use liburing.Common.Bits.{bit, bit-bit_and, bit-bit_or, bit-le, bit-mask}
use liburing.Abi.Errno
use liburing.Abi.Shared
use liburing.Ring.{Ring}
use liburing.Completion.{cq_eventfd_enabled, cq_eventfd_toggle, set_eventfd}

bit-zero : (i : ℕ) → bit 0 i ≡ 0
bit-zero zero = refl
bit-zero (suc i) = bit-zero i

-- Above the lowest digit `~1` has ones.
high_bits : (i : ℕ) → i < 31 → bit 0xffff_fffe (suc i) ≡ 1
high_bits i h = bit-mask 31 i h

-- The flag word that is written.
pub record Toggled (enabled : Bool) (old new : ℕ) : Type 0 where
  pub flag : has new Shared.cq_eventfd_disabled ≡ not enabled
  pub others : (i : ℕ) → i < 31 → bit new (suc i) ≡ bit old (suc i)

set_eventfd-Toggled : (enabled : Bool) (old : ℕ) → Toggled enabled old (set_eventfd enabled old)
unfolding set_eventfd has
set_eventfd-Toggled true old = record {
  flag = has-bit_and old 0xffff_fffe 0 ∙ ground arith;
  others = λ i lt.
      ground (arith, bit-bit_and old 0xffff_fffe (suc i), high_bits i lt, bit-le old (suc i));
}
set_eventfd-Toggled false old = record {
  flag = has-bit_or old 1 0 ∙ ground arith;
  others = λ i lt. ground (arith, bit-bit_or old 1 (suc i), bit-zero i);
}

-- With a flag word in the ring `io_uring_cq_eventfd_toggle` returns 0, changes only that word,
-- and leaves the notification as asked for and the other 31 flags as they were.
pub cq_eventfd_toggle-some :
    (r : Ring) (enabled : Bool) (old : ℕ)
    → r.cq.kflags ≡ some old
    → (new : ℕ) × (cq_eventfd_toggle r enabled
        ≡ (pos 0, record r { cq = record r.cq { kflags = some new } }))
      × Toggled enabled old new
unfolding cq_eventfd_toggle cq_eventfd_enabled
cq_eventfd_toggle-some r true old e = elim (Bool-cases (has old Shared.cq_eventfd_disabled)) [
  | inr h ↦ (old, ground arith, record { flag = h; others = λ i lt. refl })
  | inl h ↦ (set_eventfd true old, ground arith, set_eventfd-Toggled true old)
]
cq_eventfd_toggle-some r false old e = elim (Bool-cases (has old Shared.cq_eventfd_disabled)) [
  | inl h ↦ (old, ground arith, record { flag = h; others = λ i lt. refl })
  | inr h ↦ (set_eventfd false old, ground arith, set_eventfd-Toggled false old)
]

-- Without a flag word `io_uring_cq_eventfd_toggle` returns 0 where the notification is to be on
-- and -EOPNOTSUPP where it is to be off, and changes nothing.
pub cq_eventfd_toggle-none :
    (r : Ring)
    → r.cq.kflags ≡ none
    → (cq_eventfd_toggle r true ≡ (pos 0, r))
      × (cq_eventfd_toggle r false ≡ (neg Errno.eopnotsupp, r))
unfolding cq_eventfd_toggle cq_eventfd_enabled
cq_eventfd_toggle-none r e = ground arith
