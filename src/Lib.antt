-- ===== src/Lib.antt =====
-- liburing, the library of io_uring: the rings that an application shares with the kernel, the helpers
-- that fill their entries, and the functions that submit, wait and register.
--
-- The parts and their files:
--
-- Abi       the constants of src/include/liburing/io_uring.h and src/int_flags.h.
-- Sqe       `struct io_uring_sqe` and `struct io_uring_cqe`; Sqe.Base and Sqe.Prep are the
--           `io_uring_prep_*` helpers of src/include/liburing.h, one function each under the helper's
--           name without `io_uring_`. Sqe.Request lists those that prepare a request with their
--           arguments and Sqe.Dispatch applies one.
-- Ring      `struct io_uring`. A word that the struct points to, because the kernel shares it, is a
--           field here, and a pointer to an entry is its index. io_uring_enter(2) is a parameter: a
--           function of the call and of the ring that returns the result and the new values of
--           the words that the kernel writes. A ring lists the calls made.
-- Submission, Completion, Submit, Wait
--           the functions of src/queue.c and of src/include/liburing.h on the two rings, under their
--           names without `io_uring_`. Submission.Steps and Completion.Fifo are the relations of
--           the steps that application and kernel take, with the pointers that the application holds,
--           and Submission.Refine compares those on the submission ring with moves of two plain queues.
--           Submission.Pending and Submit.Hands follow the SQEs that are not taken yet through any of
--           the functions that submit.
-- BufRing   the helpers for the ring of provided buffers.
-- Sys       the calls that leave the library, and errors in pointers (src/syscall.h). What a call
--           answers is a parameter that sees the calls made before; Sys.Resources says which
--           mappings and descriptors a list of calls leaves, as the manual pages document it.
-- Arch      src/arch and src/syscall.c: the calls by way of libc, and the page sizes; Arch.Native, the
--           wrappers of src/arch/syscall-defs.h, which do without libc.
-- Register  src/register.c; Register.RingFd is the ring's own descriptor.
-- Setup     src/setup.c: the sizes of the rings; Setup.Map, mapping and unmapping them; Setup.Init,
--           io_uring_queue_init_params and what it calls; Setup.Exit, io_uring_queue_exit;
--           Setup.Provided, the memory of provided buffers; Setup.Probe, io_uring_get_probe and
--           io_uring_mlock_size. Their children state what is left mapped and open, and
--           Setup.Init.Ready joins the set-up with Submission and Completion.
-- Recvmsg   the `io_uring_recvmsg_*` helpers of src/include/liburing.h, on addresses.
-- Nolibc    src/nolibc.c: memset, malloc and free of a build without libc.
-- Version   src/version.c and IO_URING_CHECK_VERSION.
-- Cp        `copy_file` of examples/io_uring-cp.c as a state machine: from one wait or peek to the
--           next, `Cp.step` runs the code on what the call is answered. The example sees a ring
--           through what it promises: each submitted request completes once, in any order, and
--           has then moved so many bytes.
-- Udp       examples/io_uring-udp.c, a server that sends each datagram back, written on the functions of
--           the other parts: Udp.round is one round of its loop. Its pool of buffers is a BufRing, and
--           what the memory of a buffer holds is a parameter.
-- LinkCp    `copy_file` of examples/link-cp.c in the same way, by pairs of a read and a linked write; the
--           completions that come are steps of LinkCp.Runs, and how much io_uring_submit submits is a
--           parameter.
-- Common    names of the libraries, words of 32 and 64 bits, flags, C's int, windows of a ring.
-- Tests     runs at concrete rings.
--
-- How they interact: Submission hands out SQEs that the Sqe helpers fill; Submit flushes them and enters
-- the kernel; Wait peeks with Completion and enters the kernel again as long as completions are
-- missing; Register and BufRing act on the same ring.
--
-- Integers are natural numbers, with the wrap of the C type written out; `int` is an integer with a
-- sign. Loads and stores that the code orders by acquire and release are plain here: each step of an
-- interleaving is atomic.
--
-- A function on system calls takes the calls made so far and returns the longer list. A pointer that a
-- function maps is the number that mmap(2) answers, and what the memory at a pointer shows after the
-- calls is a parameter of the set-up. `struct io_uring` in Ring has no pointers; those that
-- src/setup.c keeps in it are in Setup.Map's Mapping.
--
-- Bounds: `__io_uring_peek_cqe` is given one round more than there are ready entries, of which each
-- round but the last takes one. The loop that registers files is given two rounds, since it goes
-- round again only once. The walk of `io_uring_for_each_cqe` has fuel; Completion.Walk says how much
-- is enough. The loop of `_io_uring_get_cqe` runs on fuel that the caller chooses; how much is
-- enough is a result below. Rings have at most 2^31 entries, provided buffers 2^15. The loop of
-- io_uring-cp that queues reads is given as many rounds as its ring has entries, after which its own
-- test has ended it (Cp.Rounds); the one of link-cp that queues pairs, as many, each of which adds two
-- requests to a counter that its test compares with them (LinkCp.Fill).
--
-- Not modelled: what the system calls do, and the instructions that enter the kernel (the macros of
-- src/arch/*/syscall.h), which are parameters; the variants for architectures without open(2) and with
-- mmap2(2); src/ffi.c, which has no code of its own; test programs, and the examples but for
-- io_uring-cp, link-cp and io_uring-udp. Of these, opening files and sockets, options and what is
-- printed are left out.
-- malloc in Setup is that of the C library, whose own mappings are not counted; a build without it has
-- Nolibc's, which is modelled apart.
-- io_uring_setup(2) is taken to write the flags back as they were where
-- `__io_uring_queue_init_params` tests IORING_SETUP_NO_MMAP a second time.
pub mod Common
pub mod Abi
pub mod Arch
pub mod Sqe
pub mod Ring
pub mod Submission
pub mod Completion
pub mod Submit
pub mod Udp
pub mod LinkCp
pub mod Version
pub mod Wait
pub mod BufRing
pub mod Sys
pub mod Recvmsg
pub mod Nolibc
pub mod Cp
pub mod Register
pub mod Setup
pub mod Tests
