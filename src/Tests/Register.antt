-- ===== src/Tests/Register.antt =====
-- Runs of the registrations.
use liburing.Common.{◌∷◌, ◌≡◌, refl, inr, false, [], ◌∷◌, has, bit_or, some}
use liburing.Common.Int.{ℤ, pos, neg}
use liburing.Abi.Errno
use liburing.Abi.Feat
use liburing.Abi.Register as Op
use liburing.Ring.{Ring}
use liburing.Sys.{RegArg, Call, Calls, Os}
use liburing.Register.{register_call, do_register}
use liburing.Register.Resources.{retry_loop}
use liburing.Register.Retry.{Tries, retry_loop-Tries}
use liburing.Register.RingFd.{register_ring_fd, unregister_ring_fd, close_ring_fd}
use liburing.Register.RingFd.Runs.{FdRun, FdRun-IsFd, IsSameFd, unregister_ring_fd-restores}
use liburing.Register.RingFd.Inv.{IsFd, register_ring_fd-IsFd, close_reaches}
use liburing.Tests.Data.{small}

-- A system that has no descriptors left until the limit is raised.
abbrev strict : Os
strict [] call = record { ret = neg Errno.emfile; arg = RegArg.user 0; rlim_cur = 0 }
strict (c ∷ cs) call = record { ret = pos 0; arg = RegArg.user 0; rlim_cur = 16 }

retry_loop-Tries_example :
    (result : ℤ × Calls) × (retry_loop strict small Op.register_files
        (RegArg.user 4096)
        32
        32
        2
        false
        []
      ≡ some result)
    × Tries strict small Op.register_files (RegArg.user 4096) 32 32 [] result
retry_loop-Tries_example =
    retry_loop-Tries strict small Op.register_files (RegArg.user 4096) 32 32 []

-- A system that registers the ring at index 3.
abbrev grants : Os
grants t call = record { ret = pos 1; arg = RegArg.rsrc_update 3 0; rlim_cur = 0 }

abbrev able : Ring
able = record small { features = bit_or Feat.ext_arg Feat.reg_reg_ring }

able-IsFd : IsFd able
unfolding has
able-IsFd = record { plain = inr refl; above = refl; feature = refl }

abbrev known : Ring
known = (register_ring_fd grants [] able).1

known-IsFd : IsFd known
known-IsFd = register_ring_fd-IsFd grants [] able-IsFd

FdRun-IsFd_example : IsFd (close_ring_fd grants [] known).1
FdRun-IsFd_example = FdRun-IsFd able-IsFd (FdRun.close [] (FdRun.register [] FdRun.start))

unregister_ring_fd-restores_example : IsSameFd able (unregister_ring_fd grants [] known).1
unfolding register_ring_fd unregister_ring_fd do_register has
unregister_ring_fd-restores_example = unregister_ring_fd-restores grants [] [] able-IsFd refl refl

known_closes :
    close_ring_fd grants [] known
    ≡ (pos 1, record known { ring_fd = neg 1 }, Call.close (pos 5) ∷ [])
unfolding close_ring_fd register_ring_fd do_register has
known_closes = refl

close_reaches_example :
    (Call.close (pos 5) ∷ [] ≡ Call.close known.ring_fd ∷ [])
    × (neg 1 ≡ neg 1)
    × (register_call (record known { ring_fd = neg 1 }) Op.register_files (RegArg.user 4096) 1
        ≡ Call.register known.enter_ring_fd
            (bit_or Op.register_files Op.use_registered_ring)
            (RegArg.user 4096)
            1)
close_reaches_example =
    close_reaches grants [] known-IsFd Op.register_files (RegArg.user 4096) 1 known_closes
