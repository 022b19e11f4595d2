-- ===== src/Abi/Op.antt =====
-- `enum io_uring_op`: the opcodes (src/include/liburing/io_uring.h).
use liburing.Common.{ℕ}

abbrev pub nop : ℕ
nop = 0

abbrev pub readv : ℕ
readv = 1

abbrev pub writev : ℕ
writev = 2

abbrev pub fsync : ℕ
fsync = 3

abbrev pub read_fixed : ℕ
read_fixed = 4

abbrev pub write_fixed : ℕ
write_fixed = 5

abbrev pub poll_add : ℕ
poll_add = 6

abbrev pub poll_remove : ℕ
poll_remove = 7

abbrev pub sync_file_range : ℕ
sync_file_range = 8

abbrev pub sendmsg : ℕ
sendmsg = 9

abbrev pub recvmsg : ℕ
recvmsg = 10

abbrev pub timeout : ℕ
timeout = 11

abbrev pub timeout_remove : ℕ
timeout_remove = 12

abbrev pub accept : ℕ
accept = 13

abbrev pub async_cancel : ℕ
async_cancel = 14

abbrev pub link_timeout : ℕ
link_timeout = 15

abbrev pub connect : ℕ
connect = 16

abbrev pub fallocate : ℕ
fallocate = 17

abbrev pub openat : ℕ
openat = 18

abbrev pub close : ℕ
close = 19

abbrev pub files_update : ℕ
files_update = 20

abbrev pub statx : ℕ
statx = 21

abbrev pub read : ℕ
read = 22

abbrev pub write : ℕ
write = 23

abbrev pub fadvise : ℕ
fadvise = 24

abbrev pub madvise : ℕ
madvise = 25

abbrev pub send : ℕ
send = 26

abbrev pub recv : ℕ
recv = 27

abbrev pub openat2 : ℕ
openat2 = 28

abbrev pub epoll_ctl : ℕ
epoll_ctl = 29

abbrev pub splice : ℕ
splice = 30

abbrev pub provide_buffers : ℕ
provide_buffers = 31

abbrev pub remove_buffers : ℕ
remove_buffers = 32

abbrev pub tee : ℕ
tee = 33

abbrev pub shutdown : ℕ
shutdown = 34

abbrev pub renameat : ℕ
renameat = 35

abbrev pub unlinkat : ℕ
unlinkat = 36

abbrev pub mkdirat : ℕ
mkdirat = 37

abbrev pub symlinkat : ℕ
symlinkat = 38

abbrev pub linkat : ℕ
linkat = 39

abbrev pub msg_ring : ℕ
msg_ring = 40

abbrev pub fsetxattr : ℕ
fsetxattr = 41

abbrev pub setxattr : ℕ
setxattr = 42

abbrev pub fgetxattr : ℕ
fgetxattr = 43

abbrev pub getxattr : ℕ
getxattr = 44

abbrev pub socket : ℕ
socket = 45

abbrev pub uring_cmd : ℕ
uring_cmd = 46

abbrev pub send_zc : ℕ
send_zc = 47

abbrev pub sendmsg_zc : ℕ
sendmsg_zc = 48

abbrev pub read_multishot : ℕ
read_multishot = 49

abbrev pub waitid : ℕ
waitid = 50

abbrev pub futex_wait : ℕ
futex_wait = 51

abbrev pub futex_wake : ℕ
futex_wake = 52

abbrev pub futex_waitv : ℕ
futex_waitv = 53

abbrev pub fixed_fd_install : ℕ
fixed_fd_install = 54

abbrev pub ftruncate : ℕ
ftruncate = 55
