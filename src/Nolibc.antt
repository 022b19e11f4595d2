-- ===== src/Nolibc.antt =====
-- src/nolibc.c: memset, malloc and free for a library that is built without libc. An address is a number,
-- and memory is what stands at each: a byte for memset, a word of 64 bits for the length
-- that malloc leaves in front of what it returns.
pub mod Heap
use liburing.Common.{ℕ, zero, suc, ◌+◌, ◌-◌, ◌%◌, ◌^◌, Bool, List, ◌∷◌, ◌==◌, if◌then◌else◌}
use liburing.Common.Int.{ℤ, neg}
use liburing.Common.Window.{upd}
use liburing.Sys.{Call, Calls, Os, MapKind, is_err, mapped_at}

-- `__uring_memset`: the loop, from its end.
unfoldable pub uring_memset : (bytes : ℕ → ℕ) (s c n : ℕ) → ℕ → ℕ
uring_memset bytes s c zero = bytes
uring_memset bytes s c (suc n) = upd (uring_memset bytes s c n) (s + n) (c % 2 ^ 8)

-- `sizeof(struct uring_heap)`, also the offset of `user_p`, with the alignment of x86-64
abbrev pub heap_size : ℕ
heap_size = 16

-- The call by which `__uring_malloc` gets its memory
abbrev pub heap_map : (len : ℕ) → Call
heap_map len = Call.mmap ((heap_size + len) % 2 ^ 64) MapKind.private_anonymous (neg 1) 0

-- `__uring_malloc`: the pointer, 0 for NULL, and the words of memory.
unfoldable pub uring_malloc : Os → (words : ℕ → ℕ) (len : ℕ) → Calls → ℕ × (ℕ → ℕ) × Calls
uring_malloc os words len t =
    let heap = mapped_at os t (heap_map len) in
    let t' = heap_map len ∷ t in
    if is_err heap
    then (0, words, t')
    else (heap + heap_size, upd words heap ((heap_size + len) % 2 ^ 64), t')

-- `__uring_free`
unfoldable pub uring_free : (words : ℕ → ℕ) (p : ℕ) → Calls → Calls
uring_free words p t = if p == 0 then t else Call.munmap (p - heap_size) (words (p - heap_size)) ∷ t
