-- ===== src/Tests/Sqe.antt =====
-- A used SQE is prepared again.
use liburing.Common.{◌≡◌, refl}
use liburing.Common.Int.{pos}
use liburing.Sqe.{Sqe}
use liburing.Sqe.Request.{Request}
use liburing.Sqe.Dispatch.{prep, prep-blank, blank}

abbrev used : Sqe
used = record blank { opcode = 7; flags = 3; len = 12; user_data = 99; file_index = 4 }

prep-blank_example :
    prep (Request.read (pos 4) 4096 512 0) used
    ≡ record (prep (Request.read (pos 4) 4096 512 0) blank) { user_data = 99 }
prep-blank_example = prep-blank (Request.read (pos 4) 4096 512 0) used

-- The place, the length and the user data of the read
prepared_read : (prep (Request.read (pos 4) 4096 512 0) used).len ≡ 512
unfolding prep
prepared_read = refl
