-- ===== src/Register/Resources.antt =====
-- The functions of src/register.c that pass one request on: buffers, files, eventfds and settings of the ring.
use liburing.Common.{
  ℕ, zero, suc, ◌∷◌, ◌^◌, ◌&&◌, Bool, true, false, not, Option, none, some, if◌then◌else◌, leb,
}
use liburing.Common.Int.{ℤ, pos, neg, u32, eqb, is_neg, is_nonzero, wrap}
use liburing.Abi.Errno
use liburing.Abi.Register as Op
use liburing.Ring.{Ring}
use liburing.Sys.{RegArg, Call, Calls, Os, null}
use liburing.Register.{do_register, register_ret, increase_rlimit_nofile}

-- IORING_RSRC_REGISTER_SPARSE
abbrev pub sparse : ℕ
sparse = 2 ^ 0

-- `sizeof` of the structs that are passed with their size
abbrev pub sizeof_rsrc_register : ℕ
sizeof_rsrc_register = 32

abbrev pub sizeof_rsrc_update2 : ℕ
sizeof_rsrc_update2 = 32

module _ (os : Os) (t : Calls) (r : Ring) where
  unfoldable pub register_buffers_update_tag : (off iovecs tags nr : ℕ) → ℤ × Calls
  register_buffers_update_tag off iovecs tags nr =
      register_ret os t r Op.register_buffers_update (RegArg.rsrc_update2 off iovecs tags nr)
        sizeof_rsrc_update2

  unfoldable pub register_buffers_tags : (iovecs tags nr : ℕ) → ℤ × Calls
  register_buffers_tags iovecs tags nr =
      register_ret os t r Op.register_buffers2 (RegArg.rsrc_register nr 0 iovecs tags)
        sizeof_rsrc_register

  unfoldable pub register_buffers_sparse : (nr : ℕ) → ℤ × Calls
  register_buffers_sparse nr =
      register_ret os t r Op.register_buffers2 (RegArg.rsrc_register nr sparse 0 0)
        sizeof_rsrc_register

  unfoldable pub register_buffers : (iovecs nr_iovecs : ℕ) → ℤ × Calls
  register_buffers iovecs nr_iovecs =
      register_ret os t r Op.register_buffers (RegArg.user iovecs) nr_iovecs

  unfoldable pub unregister_buffers : ℤ × Calls
  unregister_buffers = register_ret os t r Op.unregister_buffers null 0

  unfoldable pub register_files_update_tag : (off files tags nr_files : ℕ) → ℤ × Calls
  register_files_update_tag off files tags nr_files =
      register_ret os t r Op.register_files_update2 (RegArg.rsrc_update2 off files tags nr_files)
        sizeof_rsrc_update2

  unfoldable pub register_files_update : (off files nr_files : ℕ) → ℤ × Calls
  register_files_update off files nr_files =
      register_ret os t r Op.register_files_update (RegArg.files_update off files) nr_files

  unfoldable pub unregister_files : ℤ × Calls
  unregister_files = register_ret os t r Op.unregister_files null 0

  unfoldable pub register_eventfd : ℤ → ℤ × Calls
  register_eventfd event_fd = register_ret os t r Op.register_eventfd (RegArg.event_fd event_fd) 1

  unfoldable pub unregister_eventfd : ℤ × Calls
  unregister_eventfd = register_ret os t r Op.unregister_eventfd null 0

  unfoldable pub register_eventfd_async : ℤ → ℤ × Calls
  register_eventfd_async event_fd =
      register_ret os t r Op.register_eventfd_async (RegArg.event_fd event_fd) 1

  unfoldable pub register_probe : (p nr_ops : ℕ) → ℤ × Calls
  register_probe p nr_ops = register_ret os t r Op.register_probe (RegArg.user p) nr_ops

  unfoldable pub register_personality : ℤ × Calls
  register_personality = register_ret os t r Op.register_personality null 0

  unfoldable pub unregister_personality : ℤ → ℤ × Calls
  unregister_personality id = register_ret os t r Op.unregister_personality null (u32 id)

  unfoldable pub register_restrictions : (res nr_res : ℕ) → ℤ × Calls
  register_restrictions res nr_res =
      register_ret os t r Op.register_restrictions (RegArg.user res) nr_res

  unfoldable pub enable_rings : ℤ × Calls
  enable_rings = register_ret os t r Op.register_enable_rings null 0

  unfoldable pub register_iowq_aff : (cpusz mask : ℕ) → ℤ × Calls
  register_iowq_aff cpusz mask =
      if leb (2 ^ 31) cpusz
      then (neg Errno.einval, t)
      else register_ret os t r Op.register_iowq_aff (RegArg.user mask) cpusz

  unfoldable pub unregister_iowq_aff : ℤ × Calls
  unregister_iowq_aff = register_ret os t r Op.unregister_iowq_aff null 0

  unfoldable pub register_iowq_max_workers : (values : ℕ) → ℤ × Calls
  register_iowq_max_workers values =
      register_ret os t r Op.register_iowq_max_workers (RegArg.user values) 2

  unfoldable pub register_buf_ring : RegArg → ℤ × Calls
  register_buf_ring reg = register_ret os t r Op.register_pbuf_ring reg 1

  -- `reg.bgid` is 16 bits wide.
  unfoldable pub unregister_buf_ring : ℤ → ℤ × Calls
  unregister_buf_ring bgid =
      register_ret os t r Op.unregister_pbuf_ring (RegArg.buf_reg 0 0 (wrap 16 bgid)) 1

  unfoldable pub register_sync_cancel : (reg : ℕ) → ℤ × Calls
  register_sync_cancel reg = register_ret os t r Op.register_sync_cancel (RegArg.user reg) 1

  unfoldable pub register_file_alloc_range : (off len : ℕ) → ℤ × Calls
  register_file_alloc_range off len =
      register_ret os t r Op.register_file_alloc_range (RegArg.index_range off len) 0

  -- These two do not go through `do_register`.
  unfoldable pub register_napi : (napi : ℕ) → ℤ × Calls
  register_napi napi =
      let call = Call.register r.ring_fd Op.register_napi (RegArg.user napi) 1 in
      ((os t call).ret, call ∷ t)

  unfoldable pub unregister_napi : (napi : ℕ) → ℤ × Calls
  unregister_napi napi =
      let call = Call.register r.ring_fd Op.unregister_napi (RegArg.user napi) 1 in
      ((os t call).ret, call ∷ t)

-- `buf_status.head` of what the kernel has written
abbrev pub status_head : RegArg → ℕ
status_head (RegArg.buf_status buf_group head) = head
status_head _ = 0

-- `io_uring_buf_ring_head`: the result, and what it stores in `*head` if that is 0.
unfoldable pub buf_ring_head : Os → Calls → Ring → (buf_group : ℤ) → (ℤ × Option ℕ) × Calls
unfolding do_register
buf_ring_head os t r buf_group =
    let (reply, t') =
      do_register os t r Op.register_pbuf_status (RegArg.buf_status (u32 buf_group) 0) 1 in
    if is_nonzero reply.ret
    then ((reply.ret, none), t')
    else ((pos 0, some (status_head reply.arg)), t')

-- The loop of the functions that register files: again, once, after raising the limit on open files.
module _ (os : Os) (r : Ring) (opcode : ℕ) (arg : RegArg) (nr_args nr : ℕ) where
  unfoldable pub retry_loop : ℕ → (did_increase : Bool) → Calls → Option (ℤ × Calls)
  unfolding register_ret increase_rlimit_nofile
  retry_loop zero did_increase t = none
  retry_loop (suc fuel) did_increase t =
      let (ret, t') = register_ret os t r opcode arg nr_args in
      let rest = retry_loop fuel true (increase_rlimit_nofile os t' nr).1 in
      if not (is_neg ret)
      then some (ret, t')
      else if eqb ret (neg Errno.emfile) && not did_increase
      then rest
      else some (ret, t')

-- The loop is given two rounds, which are enough.
module _ (os : Os) (t : Calls) (r : Ring) where
  unfoldable pub register_files_sparse : (nr : ℕ) → Option (ℤ × Calls)
  unfolding retry_loop
  register_files_sparse nr =
      retry_loop os r Op.register_files2 (RegArg.rsrc_register nr sparse 0 0) sizeof_rsrc_register
        nr 2 false t

  unfoldable pub register_files_tags : (files tags nr : ℕ) → Option (ℤ × Calls)
  unfolding retry_loop
  register_files_tags files tags nr =
      retry_loop os r Op.register_files2 (RegArg.rsrc_register nr 0 files tags) sizeof_rsrc_register
        nr 2 false t

  unfoldable pub register_files : (files nr_files : ℕ) → Option (ℤ × Calls)
  unfolding retry_loop
  register_files files nr_files =
      retry_loop os r Op.register_files (RegArg.user files) nr_files nr_files 2 false t
