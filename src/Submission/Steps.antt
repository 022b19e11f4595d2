-- ===== src/Submission/Steps.antt =====
-- The steps of application and kernel on the submission ring. The application's are the calls of `Submission` and its
-- writes through the pointers that `get_sqe` returned; the kernel's step is the one that man/io_uring.7 describes: it
-- takes the entry at the head, by way of the index array if there is one.
use liburing.Common.{
  ℕ, ◌*◌, ◌≡◌, ◌≢◌, ap, sym, ◌⊎◌, ◌∙◌, none, some, List, [], ◌∷◌, ◌++◌, if◌then◌else◌, has, bit_and,
  add32, sub32,
}
use liburing.Common.Window.{upd, window}
use mathlib.Core.List.{append-nil, append_assoc}
use liburing.Abi.Setup
use liburing.Sqe.{Sqe}
use liburing.Ring.{Ring}
use liburing.Submission.{get_sqe, flush_sq}
use liburing.Submission.Inv.{place}

-- `*sqe = s` through a pointer that the application holds
abbrev pub write_sqe : Ring → ℕ → Sqe → Ring
write_sqe r i s = record r { sq = record r.sq { sqes = upd r.sq.sqes i s } }

-- The place from which the kernel reads the SQE with number `i`: places are counted in 64 bytes, and an SQE takes two
-- of them with IORING_SETUP_SQE128.
abbrev pub kernel_place : Ring → ℕ → ℕ
kernel_place r i =
    let j = bit_and i r.sq.ring_mask in
    (if has r.flags Setup.no_sqarray then j else r.sq.array j)
    * (if has r.flags Setup.sqe128 then 2 else 1)

abbrev pub take_head : Ring → Ring
take_head r = record r { sq = record r.sq { khead = add32 r.sq.khead 1 } }

-- SQEs handed out and not flushed yet.
abbrev pub unflushed : Ring → List Sqe
unflushed r = window (place r) r.sq.sqes r.sq.sqe_head (sub32 r.sq.sqe_tail r.sq.sqe_head)

-- SQEs flushed that the kernel has not taken.
abbrev pub flushed : Ring → List Sqe
flushed r = window (place r) r.sq.sqes r.sq.khead (sub32 r.sq.sqe_head r.sq.khead)

-- The places of the SQEs handed out and not flushed, in the order of their numbers.
abbrev pub unflushed_places : Ring → List ℕ
unflushed_places r = window (place r) (λ i. i) r.sq.sqe_head (sub32 r.sq.sqe_tail r.sq.sqe_head)

-- What application and kernel do: get_sqe returns a pointer or NULL, an SQE is written through a pointer, SQEs are
-- flushed, and the kernel takes one.
pub data Event : Type 0 where
  got : (i : ℕ) → Event
  full : Event
  wrote : (i : ℕ) (s : Sqe) → Event
  flushed_all : (ss : List Sqe) → Event
  took : (s : Sqe) → Event

abbrev pub published_by : Event → List Sqe
published_by (Event.flushed_all ss) = ss
published_by _ = []

abbrev pub consumed_by : Event → List Sqe
consumed_by (Event.took s) = s ∷ []
consumed_by _ = []

abbrev pub published : List Event → List Sqe
published [] = []
published (e ∷ es) = published_by e ++ published es

abbrev pub consumed : List Event → List Sqe
consumed [] = []
consumed (e ∷ es) = consumed_by e ++ consumed es

-- What the application sees through its pointers
abbrev pub contents : Ring → List ℕ → List Sqe
contents r [] = []
contents r (i ∷ held) = r.sq.sqes i ∷ contents r held

abbrev pub IsIn : ℕ → List ℕ → Type 0
IsIn i [] = ⊥
IsIn i (j ∷ js) = (i ≡ j) ⊎ IsIn i js

-- A step. `held` are the pointers that get_sqe has returned since the last flush, the oldest first: the application
-- writes through these only, and a flush publishes what it has written there, in this order.
pub data Step (r : Ring) (held : List ℕ) : Event → Ring → List ℕ → Type 0 where
  take :
      {i : ℕ} {r' : Ring} → get_sqe r ≡ (some i, r') → Step r held (Event.got i) r' (held ++ i ∷ [])
  refuse : {r' : Ring} → get_sqe r ≡ (none, r') → Step r held Event.full r' held
  write : (i : ℕ) (s : Sqe) → IsIn i held → Step r held (Event.wrote i s) (write_sqe r i s) held
  flush : Step r held (Event.flushed_all (contents r held)) (flush_sq r).1 []
  consume :
      r.sq.khead ≢ r.sq.ktail
      → Step r held (Event.took (r.sq.sqes (kernel_place r r.sq.khead))) (take_head r) held

-- Steps in sequence
pub data Run (r : Ring) (held : List ℕ) : List Event → Ring → List ℕ → Type 0 where
  start : Run r held [] r held
  next :
      {es : List Event} {e : Event} {s t : Ring} {hs ht : List ℕ}
      → Run r held es s hs
      → Step s hs e t ht
      → Run r held (es ++ e ∷ []) t ht

pub published-snoc :
    (es : List Event) (e : Event) → published (es ++ e ∷ []) ≡ published es ++ published_by e
published-snoc [] e = append-nil (published_by e)
published-snoc (d ∷ es) e =
    ap (λ l. published_by d ++ l) (published-snoc es e)
    ∙ sym (append_assoc (published_by d) (published es) (published_by e))

pub consumed-snoc :
    (es : List Event) (e : Event) → consumed (es ++ e ∷ []) ≡ consumed es ++ consumed_by e
consumed-snoc [] e = append-nil (consumed_by e)
consumed-snoc (d ∷ es) e =
    ap (λ l. consumed_by d ++ l) (consumed-snoc es e)
    ∙ sym (append_assoc (consumed_by d) (consumed es) (consumed_by e))
