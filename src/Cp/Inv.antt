-- ===== src/Cp/Inv.antt =====
-- What holds while `copy_file` of examples/io_uring-cp.c copies a file of `size` bytes.
use liburing.Common.{
  ℕ, ◌+◌, ◌*◌, ◌<◌, ◌≤◌, ◌≡◌, refl, ◌⊎◌, inl, inr, false, List, [], ◌∷◌, length, if◌then◌else◌,
  Bool-cases, arith,
}
use liburing.Cp.{qd, bs, IoData, Copy}
use liburing.Cp.Requests.{total, All, Any}

abbrev pub is_read : IoData → ℕ
is_read d = if d.read then 1 else 0

abbrev pub is_write : IoData → ℕ
is_write d = if d.read then 0 else 1

abbrev pub read_len : IoData → ℕ
read_len d = if d.read then d.first_len else 0

-- How many bytes are left to move for a request, its write after its read included
abbrev pub work : IoData → ℕ
work d = if d.read then d.iov_len + d.first_len else d.iov_len

abbrev pub Covers : ℕ → IoData → Type 0
Covers j d = (d.first_offset ≤ j) × (j < d.first_offset + d.first_len)

-- A request has read the bytes up to `iov_base`, or all of them, and written those up to `iov_base`.
pub record IsGood (infile out : ℕ → ℕ) (d : IoData) : Type 0 where
  pub some_bytes : 1 ≤ d.first_len
  pub few_bytes : d.first_len ≤ bs
  pub progress : d.iov_base + d.iov_len ≡ d.first_len
  pub place : d.offset ≡ d.first_offset + d.iov_base
  pub filled :
      (i : ℕ)
      → i < (if d.read then d.iov_base else d.first_len)
      → d.buf i ≡ infile (d.first_offset + i)
  pub written :
      d.read ≡ false
      → (i : ℕ) → i < d.iov_base
      → out (d.first_offset + i) ≡ infile (d.first_offset + i)

abbrev pub IsBusy : IoData → Type 0
IsBusy d = 1 ≤ d.iov_len

-- Where `out` is a copy, so is `out'`.
abbrev pub Grows : (infile out out' : ℕ → ℕ) → Type 0
Grows infile out out' = (j : ℕ) → out j ≡ infile j → out' j ≡ infile j

pub IsGood-Grows :
    {infile out out' : ℕ → ℕ} {d : IoData}
    → Grows infile out out'
    → IsGood infile out d
    → IsGood infile out' d
IsGood-Grows {infile} {out} {out'} {d} grows g = record {
  some_bytes = g.some_bytes;
  few_bytes = g.few_bytes;
  progress = g.progress;
  place = g.place;
  filled = g.filled;
  written = λ w i lt. grows (d.first_offset + i) (g.written w i lt);
}

module _ (infile : ℕ → ℕ) (size : ℕ) where
  -- The counters fit the requests `xs`, every byte that has been asked for is in the output or in a request,
  -- and at most `budget` bytes are left to move.
  pub record InvOf (budget : ℕ) (c : Copy) (xs : List IoData) : Type 0 where
    pub sizes : c.offset + c.insize ≡ size
    pub left : c.write_left ≡ c.insize + total read_len xs
    pub left_le : c.write_left ≤ size
    pub reads : c.reads ≡ total is_read xs
    pub writes : c.writes ≡ total is_write xs
    pub few : c.reads + c.writes ≤ qd
    pub good : All (IsGood infile c.out) xs
    pub covered : (j : ℕ) → j < c.offset → (c.out j ≡ infile j) ⊎ Any (Covers j) xs
    pub spent : 2 * c.insize + total work xs ≤ budget

  pub record Inv (budget : ℕ) (c : Copy) : Type 0 where
    pub holds : InvOf budget c c.requests
    pub room : c.queued ≤ length c.requests
    pub busy : All IsBusy c.requests

  -- All bytes are in the output.
  abbrev pub Copied : Copy → Type 0
  Copied c = (j : ℕ) → j < size → c.out j ≡ infile j

pub length-total : (xs : List IoData) → length xs ≡ total is_read xs + total is_write xs
length-total [] = refl
length-total (d ∷ xs) = elim (Bool-cases d.read) [
  | inl e ↦ rw e (omega (arith, length-total xs))
  | inr e ↦ rw e (omega (arith, length-total xs))
]

pub no_reads :
    (infile out : ℕ → ℕ) (xs : List IoData)
    → All (IsGood infile out) xs
    → total read_len xs ≡ 0
    → total is_read xs ≡ 0
no_reads infile out [] h z = refl
no_reads infile out (d ∷ xs) (p, ps) z = elim (Bool-cases d.read) [
  | inl e ↦
      let z' : d.first_len + total read_len xs ≡ 0 = rw e at z in
      absurd (omega (arith, z', p.some_bytes))
  | inr e ↦
      let z' : 0 + total read_len xs ≡ 0 = rw e at z in
      let rest = no_reads infile out xs ps (omega (arith, z')) in rw e (omega (arith, rest))
]

-- With nothing left to read or write everything has been copied.
pub nothing_left :
    {infile : ℕ → ℕ} {size budget : ℕ} {c : Copy} {xs : List IoData}
    → InvOf infile size budget c xs
    → c.insize ≡ 0
    → c.write_left ≡ 0
    → c.writes ≡ 0
    → Copied infile size c
nothing_left {infile} {size} {budget} {c} {xs} v none_in none_left none_written j lt =
    let unread : total read_len xs ≡ 0 = omega (arith, v.left, none_in, none_left) in
    let reads : total is_read xs ≡ 0 = no_reads infile c.out xs v.good unread in
    let no_requests : length xs ≡ 0 =
      omega (arith, length-total xs, reads, v.writes, none_written) in
    elim (v.covered j (omega (arith, v.sizes, none_in, lt))) [
      | inl e ↦ e
      | inr held ↦ empty xs no_requests held
    ]
  where
    empty : (ys : List IoData) → length ys ≡ 0 → Any (Covers j) ys → c.out j ≡ infile j
    empty [] e h = elim h [ ]
    empty (y ∷ ys) e h = absurd (omega (arith, e))

pub length-work : (xs : List IoData) → All IsBusy xs → length xs ≤ total work xs
length-work [] h = omega arith
length-work (d ∷ xs) (p, ps) = elim (Bool-cases d.read) [
  | inl e ↦ let rest = length-work xs ps in rw e (omega (arith, rest, p))
  | inr e ↦ let rest = length-work xs ps in rw e (omega (arith, rest, p))
]
