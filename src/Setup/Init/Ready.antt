-- ===== src/Setup/Init/Ready.antt =====
-- A ring that has been set up is one that the submission and completion code can work on.
use liburing.Common.{
  ℕ, zero, suc, ◌+◌, ◌-◌, ◌^◌, ◌≤◌, ◌<◌, ◌≡◌, refl, sym, ap, ◌∙◌, inl, inr, Bool, not, ◌||◌, List,
  [], ◌∷◌, ◌++◌, some, ◌==◌, Bool-cases, has, bit_or, arith,
}
use mathlib.Core.Option.{some-injective, none-ne-some}
use native.Mathlib.Nat.{pow-le-pow_right}
use liburing.Common.Bits.{pow-pos}
use liburing.Common.Int.{ℤ, neg, is_neg, is_nonzero, eqb}
use liburing.Abi.Errno
use liburing.Abi.Setup as Flag
use liburing.Ring.{Ring}
use liburing.Submission.Inv.{IsSq}
use liburing.Submission.Steps.{Event, published, consumed, Run, flushed, unflushed_places}
use liburing.Submission.Fifo.{IsDirect, submission_fifo}
use liburing.Completion.Inv.{IsCq, ready_cqes}
use liburing.Sys.{Params, Call, Calls, Os, Memory}
use liburing.Setup.Map.{Mapping, setup_ring_pointers, queue_mmap}
use liburing.Setup.Init.{
  Made, failed, params_of, fill_array, finish_ring, init_mapped, init_in_memory, alloc_huge,
  init_params, init_try_nosqarr, queue_init_params,
}

-- What the kernel puts into the words of a new ring: no entries yet, and sizes that are powers of two.
pub record IsNew (k m : ℕ) (mem : Memory) (p : Params) (map : Mapping) : Type 0 where
  pub sq_head : mem.word (map.sq_ring_ptr + p.sq_off.head) ≡ 0
  pub sq_tail : mem.word (map.sq_ring_ptr + p.sq_off.tail) ≡ 0
  pub sq_mask : mem.word (map.sq_ring_ptr + p.sq_off.ring_mask) ≡ 2 ^ k - 1
  pub sq_entries : mem.word (map.sq_ring_ptr + p.sq_off.ring_entries) ≡ 2 ^ k
  pub cq_head : mem.word (map.cq_ring_ptr + p.cq_off.head) ≡ 0
  pub cq_tail : mem.word (map.cq_ring_ptr + p.cq_off.tail) ≡ 0
  pub cq_mask : mem.word (map.cq_ring_ptr + p.cq_off.ring_mask) ≡ 2 ^ m - 1
  pub cq_entries : mem.word (map.cq_ring_ptr + p.cq_off.ring_entries) ≡ 2 ^ m

-- An empty ring that is in order.
pub record IsReady (k m : ℕ) (r : Ring) : Type 0 where
  pub sq : IsSq k r
  pub cq : IsCq m r
  pub direct : IsDirect r
  pub none_flushed : flushed r ≡ []
  pub none_handed : [] ≡ unflushed_places r
  pub none_ready : ready_cqes r ≡ []

-- The loop over the index array fills in every place below its bound.
fill_array-same : (n : ℕ) (array : ℕ → ℕ) (j : ℕ) → j < n → fill_array n array j ≡ j
unfolding fill_array
fill_array-same zero array j lt = absurd (omega (arith, lt))
fill_array-same (suc n) array j lt = elim (Bool-cases (j == n)) [
  | inl e ↦ rw e (ground (arith, e))
  | inr e ↦ rw e (fill_array-same n array j (ground (arith, lt, e)))
]

module _ {k m : ℕ} (narrow : k ≤ 31) (narrow' : m ≤ 31) where
  size_lt : 2 ^ k ≤ 2 ^ 31
  size_lt = pow-le-pow_right {n = 2} (omega arith) narrow

  empty-IsReady :
      (r : Ring)
      → (r.sq.khead ≡ 0)
        × (r.sq.ktail ≡ 0)
        × (r.sq.sqe_head ≡ 0)
        × (r.sq.sqe_tail ≡ 0)
        × (r.sq.ring_mask ≡ 2 ^ k - 1)
        × (r.sq.ring_entries ≡ 2 ^ k)
      → (r.cq.khead ≡ 0)
        × (r.cq.ktail ≡ 0)
        × (r.cq.ring_mask ≡ 2 ^ m - 1)
        × (r.cq.ring_entries ≡ 2 ^ m)
      → IsDirect r
      → IsReady k m r
  empty-IsReady r (khead, ktail, head, tail, mask, entries)
        (cq_khead, cq_ktail, cq_mask, cq_entries) direct =
      record {
        sq = record {
          narrow = narrow;
          entries = entries;
          mask = mask;
          khead_fits = omega (arith, khead);
          head_fits = omega (arith, head);
          tail_fits = omega (arith, tail);
          told = ktail ∙ sym head;
          flushed_le = rw (head, tail) (omega arith);
          bounded = rw (tail, khead) (omega arith);
        };
        cq = record {
          narrow = narrow';
          entries = cq_entries;
          mask = cq_mask;
          khead_fits = omega (arith, cq_khead);
          ktail_fits = omega (arith, cq_ktail);
          bounded = rw (cq_ktail, cq_khead) (omega arith);
        };
        direct = direct;
        none_flushed = rw (head, khead) refl;
        none_handed = rw (head, tail) refl;
        none_ready = rw (cq_ktail, cq_khead) refl;
      }

  module _ {mem : Memory} {p : Params} {map : Mapping} (new : IsNew k m mem p map) where
    finish_ring-IsReady :
        (fd : ℤ) (fl : ℕ) → IsReady k m (finish_ring p fd fl (setup_ring_pointers mem p map))
    unfolding finish_ring setup_ring_pointers
    finish_ring-IsReady fd fl = elim (Bool-cases (has p.flags Flag.no_sqarray)) [
      | inl e ↦ rw e (
          empty-IsReady _ (new.sq_head, new.sq_tail, refl, refl, new.sq_mask, new.sq_entries)
            (new.cq_head, new.cq_tail, new.cq_mask, new.cq_entries) (λ j le. inl e))
      | inr e ↦ rw e (
          empty-IsReady _ (new.sq_head, new.sq_tail, refl, refl, new.sq_mask, new.sq_entries)
            (new.cq_head, new.cq_tail, new.cq_mask, new.cq_entries)
            (λ j le. inr (
              fill_array-same (setup_ring_pointers mem p map).sq.ring_entries _ j
                (omega (arith, le, new.sq_mask, new.sq_entries, pow-pos k)))))
    ]

-- A ring comes out of `finish_ring`, on the memory as it is after the calls.
record IsFinished (mem : Calls → Memory) (made : Made) : Type 0 where
  finished :
      (r : Ring)
      → made.ring ≡ some r
      → (fd : ℤ) × (fl : ℕ) × (r
          ≡ finish_ring made.params fd fl
              (setup_ring_pointers (mem made.calls) made.params made.mapping))

without :
    {mem : Calls → Memory} (ret : ℤ) (p : Params) (m : Mapping) (t : Calls)
    → IsFinished mem (failed ret p m t)
without ret p m t = record { finished = λ r h. absurd (none-ne-some r h) }

module _ (os : Os) (mem : Calls → Memory) (entries : ℕ) where
  init_mapped-IsFinished :
      (p : Params) (t : Calls) → IsFinished mem (init_mapped os mem entries p t)
  unfolding init_mapped
  init_mapped-IsFinished p t =
      let fd = (os t (Call.setup entries p)).ret in
      let ret =
        (queue_mmap os fd (params_of p (os t (Call.setup entries p)).arg)
          (Call.setup entries p ∷ t)).0 in
      elim (Bool-cases (is_neg fd)) [
        | inl e ↦ rw e (without _ _ _ _)
        | inr e ↦ elim (Bool-cases (is_nonzero ret)) [
          | inl f ↦ rw (e, f) (without _ _ _ _)
          | inr f ↦ rw (e, f) (record { finished = λ r h. (fd, 0, sym (some-injective _ _ h)) })
        ]
      ]

  init_in_memory-IsFinished :
      (p : Params) (m : Mapping) (used : ℤ) (app : Bool) (t : Calls)
      → IsFinished mem (init_in_memory os mem entries p m used app t)
  unfolding init_in_memory
  init_in_memory-IsFinished p m used app t =
      let fd = (os t (Call.setup entries p)).ret in
      elim (Bool-cases (is_neg fd)) [
        | inl e ↦ rw e (without _ _ _ _)
        | inr e ↦ rw e (record { finished = λ r h. (fd, _, sym (some-injective _ _ h)) })
      ]

  init_params-IsFinished :
      (p : Params) (buf buf_size : ℕ) (t : Calls)
      → IsFinished mem (init_params os mem entries p buf buf_size t)
  unfolding init_params
  init_params-IsFinished p buf buf_size t =
      let a = alloc_huge os p entries buf buf_size t in
      elim (Bool-cases (has p.flags Flag.no_mmap)) [
        | inl own ↦ elim (Bool-cases (is_neg a.0)) [
          | inl e ↦ elim (Bool-cases (has p.flags Flag.registered_fd_only)) [
            | inl only ↦ rw (only, own, e) (without _ _ _ _)
            | inr all ↦ rw (all, own, e) (without _ _ _ _)
          ]
          | inr e ↦ elim (Bool-cases (has p.flags Flag.registered_fd_only)) [
            | inl only ↦
                rw (only, own, e) (init_in_memory-IsFinished a.1 a.2 a.0 (not (buf == 0)) a.3)
            | inr all ↦
                rw (all, own, e) (init_in_memory-IsFinished a.1 a.2 a.0 (not (buf == 0)) a.3)
          ]
        ]
        | inr kernel ↦ elim (Bool-cases (has p.flags Flag.registered_fd_only)) [
          | inl only ↦ rw (only, kernel) (without _ _ _ _)
          | inr all ↦ rw (all, kernel) (init_mapped-IsFinished p t)
        ]
      ]

  try_nosqarr-IsFinished :
      (p : Params) (buf buf_size : ℕ) (t : Calls)
      → IsFinished mem (init_try_nosqarr os mem entries p buf buf_size t)
  unfolding init_try_nosqarr
  try_nosqarr-IsFinished p buf buf_size t =
      let p' : Params = record p { flags = bit_or p.flags Flag.no_sqarray } in
      let one = init_params os mem entries p' buf buf_size t in
      elim (Bool-cases (not (eqb one.ret (neg Errno.einval)) || has p.flags Flag.no_sqarray)) [
        | inl e ↦ rw e (init_params-IsFinished p' buf buf_size t)
        | inr e ↦
            rw e (
              init_params-IsFinished (record one.params { flags = p.flags }) buf buf_size one.calls)
      ]

  module _ {k m : ℕ} (narrow : k ≤ 31) (narrow' : m ≤ 31) (p : Params) (t : Calls) (r : Ring) where
    -- Where `io_uring_queue_init_params` makes a ring, in memory of whichever kind, in whose
    -- words the kernel has put sizes that are powers of two (of at most 2^31) and no entries,
    -- both rings satisfy their invariants, the index array is the identity or not there, and
    -- neither ring has an entry.
    pub queue_init_params-IsReady :
        (queue_init_params os mem entries p t).ring ≡ some r
        → IsNew k m
            (mem (queue_init_params os mem entries p t).calls)
            (queue_init_params os mem entries p t).params
            (queue_init_params os mem entries p t).mapping
        → IsReady k m r
    unfolding queue_init_params
    queue_init_params-IsReady made new =
        let (fd, fl, same) = (try_nosqarr-IsFinished p 0 0 t).finished r made in
        rw same (finish_ring-IsReady narrow narrow' new fd fl)

    -- Where `io_uring_queue_init_params` makes a ring, in whose words the kernel has put sizes
    -- that are powers of two (of at most 2^31) and no entries: in every interleaving of get_sqe,
    -- writes through pointers that it has returned since the last flush, flushes and the
    -- kernel's takes that starts with this ring, what the flushes find behind those pointers, in
    -- the order in which get_sqe returned them, are the SQEs, in this order, that the kernel
    -- takes, followed by those that still wait.
    pub set_up_fifo :
        {es : List Event} {r' : Ring} {held : List ℕ}
        → (queue_init_params os mem entries p t).ring ≡ some r
        → IsNew k m
            (mem (queue_init_params os mem entries p t).calls)
            (queue_init_params os mem entries p t).params
            (queue_init_params os mem entries p t).mapping
        → Run r [] es r' held
        → published es ≡ consumed es ++ flushed r'
    set_up_fifo {es} {r'} made new run =
        let ready = queue_init_params-IsReady made new in
        ap (λ l. l ++ published es) (sym ready.none_flushed)
        ∙ (submission_fifo ready.sq ready.direct ready.none_handed run).moved
