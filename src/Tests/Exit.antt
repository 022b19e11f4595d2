-- ===== src/Tests/Exit.antt =====
-- Setting up a ring and tearing it down again.
use liburing.Common.{
  List, ◌+◌, ◌*◌, ◌≡◌, ◌⊎◌, refl, inl, false, [], ◌∷◌, ◌++◌, some, has, slot, arith,
}
use liburing.Common.Int.{pos}
use liburing.Abi.Setup as Flag
use liburing.Abi.IntFlag
use liburing.Ring.{Ring}
use liburing.Sys.{Params, Call, Calls, MapKind, get_page_size}
use liburing.Sys.Resources.{regions, after_call, fds}
use liburing.Setup.{get_sq_cq_entries, with_sq, clamped, roundup_pow2, fls, digit_count}
use liburing.Setup.Map.{
  Mapping, sqe_size, sq_ring_size, cq_ring_size, setup_ring_pointers, queue_mmap, mmap, map_cq,
  map_sqes,
}
use liburing.Setup.Map.Balance.{Outcome, IsMapped, ring_regions, queue_mmap-Outcome}
use liburing.Setup.Init.{
  plain_params, with_user_addrs, finish_ring, init_mapped, init_params, init_try_nosqarr,
  queue_init_params, queue_init_mem, init_in_memory, alloc_huge, alloc_sized, place_rings,
  page_align, sqes_mem, ring_mem, Made,
}
use liburing.Setup.Init.Clean.{IsUndone, IsSetUp, queue_init_params_cases}
use liburing.Submission.{get_sqe, flush_sq}
use liburing.Submission.Steps.{
  Event, published, consumed, Run, start, next, take, write, flush, consume, take_head, flushed,
  write_sqe,
}
use liburing.Submission.Fifo.{handed}
use liburing.Sqe.{Sqe}
use liburing.Sqe.Dispatch.{blank}
use liburing.Setup.Init.Ready.{IsNew, IsReady, queue_init_params-IsReady, set_up_fifo}
use liburing.Setup.Exit.{queue_exit, exit_memory}
use liburing.Setup.Exit.Restore.{queue_exit-restores, exit_memory-sqe128, left_over}
use liburing.Setup.Exit.AppMem.{exit_memory-unmaps_app_mem}
use liburing.Tests.Os.{map_os, memory, filled, map_os-IsFresh}

abbrev made : Made
made = queue_init_params map_os memory 64 (plain_params 0) []

abbrev parameters : Params
parameters = filled (plain_params Flag.no_sqarray)

abbrev mapped : Mapping
mapped = record {
  sq_ring_ptr = 0x20_0000;
  sq_ring_sz = 2368;
  sqes = 0x30_0000;
  cq_ring_ptr = 0x20_0000;
  cq_ring_sz = 2368;
}

abbrev ring : Ring
ring = finish_ring parameters (pos 3) 0 (setup_ring_pointers (memory []) parameters mapped)

queue_mmap-Outcome_example :
    Outcome 4096 map_os
      (filled (plain_params 0))
      []
      (queue_mmap map_os (pos 3) (filled (plain_params 0)) []).0
      (queue_mmap map_os (pos 3) (filled (plain_params 0)) []).1
      (queue_mmap map_os (pos 3) (filled (plain_params 0)) []).2
queue_mmap-Outcome_example =
    queue_mmap-Outcome (map_os-IsFresh 4096) (pos 3) (filled (plain_params 0)) []

queue_init_params_cases_example : IsUndone 4096 map_os [] made ⊎ IsSetUp 4096 map_os memory [] made
unfolding has
queue_init_params_cases_example =
    queue_init_params_cases (map_os-IsFresh 4096) memory 64 (plain_params 0) [] refl

ring_made : made.ring ≡ some ring
unfolding queue_init_params init_try_nosqarr init_params init_mapped queue_mmap mmap map_cq map_sqes
    has finish_ring setup_ring_pointers sq_ring_size cq_ring_size
ring_made = refl

same_mapping : made.mapping ≡ mapped
unfolding queue_init_params init_try_nosqarr init_params init_mapped queue_mmap mmap map_cq map_sqes
    has finish_ring setup_ring_pointers sq_ring_size cq_ring_size
same_mapping = refl

same_params : made.params ≡ parameters
unfolding queue_init_params init_try_nosqarr init_params init_mapped queue_mmap mmap map_cq map_sqes
    has finish_ring setup_ring_pointers sq_ring_size cq_ring_size
same_params = refl

ring_entries-same : ring.sq.ring_entries ≡ made.params.sq_entries
unfolding queue_init_params init_try_nosqarr init_params init_mapped queue_mmap mmap map_cq map_sqes
    has finish_ring setup_ring_pointers sq_ring_size cq_ring_size
ring_entries-same = refl

queue_exit-restores_example :
    (regions 4096 map_os (queue_exit map_os ring made.mapping made.calls) ≡ regions 4096 map_os [])
    × (fds map_os (queue_exit map_os ring made.mapping made.calls) ≡ fds map_os [])
unfolding has
queue_exit-restores_example =
    queue_exit-restores (map_os-IsFresh 4096) memory 64 (plain_params 0) [] ring refl ring_made
      ring_entries-same (rw same_params refl) (rw same_params refl)

-- 64 SQEs of 128 bytes take two pages.
abbrev wide_params : Params
wide_params = filled (plain_params Flag.sqe128)

abbrev wide_mapping : Mapping
wide_mapping = record {
  sq_ring_ptr = 0x10_0000;
  sq_ring_sz = 2368;
  sqes = 0x20_0000;
  cq_ring_ptr = 0x10_0000;
  cq_ring_sz = 2368;
}

abbrev wide_calls : Calls
wide_calls =
    Call.mmap 8192 MapKind.shared_populate (pos 3) 0x1000_0000
    ∷ Call.mmap 2368 MapKind.shared_populate (pos 3) 0
    ∷ []

abbrev wide : Ring
wide =
    finish_ring wide_params (pos 3) 0
      (setup_ring_pointers (memory wide_calls) wide_params wide_mapping)

wide_calls-run : (queue_mmap map_os (pos 3) wide_params []).2 ≡ wide_calls
unfolding queue_mmap mmap map_cq map_sqes has sq_ring_size cq_ring_size
wide_calls-run = refl

wide_mapping-IsMapped : IsMapped wide_params wide_mapping
unfolding has sq_ring_size
wide_mapping-IsMapped = record {
  sq_size = refl;
  sq_some = λ e. omega (arith, e);
  cq_some = λ e. omega (arith, e);
  cq_there = λ e. omega (arith, e);
  shared = inl (refl, refl);
  sqes_apart = ((λ e. omega (arith, e)), (λ e. omega (arith, e)));
}

wide_regions : regions 4096 map_os wide_calls ≡ ring_regions wide_params wide_mapping ++ []
unfolding regions after_call has
wide_regions = refl

exit_memory-sqe128_example :
    regions 4096 map_os (exit_memory wide wide_mapping wide_calls)
    ≡ record { addr = 0x20_1000; len = 4096; huge = false } ∷ []
unfolding left_over finish_ring setup_ring_pointers has
exit_memory-sqe128_example =
    exit_memory-sqe128 4096 map_os wide_params wide wide_mapping wide_calls [] wide_mapping-IsMapped
      refl refl wide_regions refl (omega arith) (λ e. omega (arith, e)) (λ e. omega (arith, e))

-- A ring of 8 SQEs and 16 CQEs in 4 KiB of the application's memory
abbrev given : Made
given = queue_init_mem map_os memory 8 (plain_params 0) 0x7000_0000 65536 []

abbrev given_mapping : Mapping
given_mapping = record {
  sq_ring_ptr = 0x7000_1000;
  sq_ring_sz = 0;
  sqes = 0x7000_0000;
  cq_ring_ptr = 0x7000_1000;
  cq_ring_sz = 0;
}

abbrev given_params : Params
given_params =
    filled (with_user_addrs (plain_params (Flag.no_mmap + Flag.no_sqarray)) given_mapping)

abbrev given_ring : Ring
given_ring =
    finish_ring given_params (pos 3) IntFlag.app_mem
      (setup_ring_pointers (memory []) given_params given_mapping)

given_made : given.ring ≡ some given_ring
unfolding queue_init_mem init_try_nosqarr init_params init_in_memory alloc_huge alloc_sized
    place_rings page_align sqes_mem ring_mem get_page_size get_sq_cq_entries with_sq clamped
    roundup_pow2 fls digit_count has finish_ring setup_ring_pointers
given_made = refl

exit_memory-unmaps_app_mem_example :
    exit_memory given_ring given.mapping given.calls
    ≡ Call.munmap 0x7000_0000 (sqe_size given_ring.flags * given_ring.sq.ring_entries) ∷ given.calls
exit_memory-unmaps_app_mem_example =
    exit_memory-unmaps_app_mem map_os memory 8 0x7000_0000 65536 (λ e. omega (arith, e))
      (plain_params 0) [] given_ring given_made

ring_words : IsNew 6 7 (memory made.calls) made.params made.mapping
unfolding queue_init_params init_try_nosqarr init_params init_mapped queue_mmap mmap map_cq map_sqes
    has finish_ring setup_ring_pointers sq_ring_size cq_ring_size
ring_words = record {
  sq_head = refl;
  sq_tail = refl;
  sq_mask = refl;
  sq_entries = refl;
  cq_head = refl;
  cq_tail = refl;
  cq_mask = refl;
  cq_entries = refl;
}

queue_init_params-IsReady_example : IsReady 6 7 ring
queue_init_params-IsReady_example =
    queue_init_params-IsReady map_os memory 64 (omega arith) (omega arith) (plain_params 0) [] ring
      ring_made ring_words

-- One SQE, filled, submitted and taken.
abbrev request : Sqe
request = record blank { user_data = 5 }

abbrev last_ring : Ring
last_ring = take_head (flush_sq (write_sqe (handed ring) 0 request)).1

abbrev events : List Event
events =
    Event.got 0 ∷ Event.wrote 0 request ∷ Event.flushed_all (request ∷ []) ∷ Event.took request ∷ []

single_entry : Run ring [] events last_ring []
unfolding get_sqe flush_sq slot has finish_ring setup_ring_pointers
single_entry =
    next (next (next (next start (take refl)) (write 0 request (inl refl))) flush)
      (consume (λ e. omega (arith, e)))

set_up_fifo_example : published events ≡ consumed events ++ flushed last_ring
set_up_fifo_example =
    set_up_fifo map_os memory 64 (omega arith) (omega arith) (plain_params 0) [] ring ring_made
      ring_words single_entry
