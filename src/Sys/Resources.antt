-- ===== src/Sys/Resources.antt =====
-- The mappings and descriptors that a list of calls leaves, as mmap(2), munmap(2), close(2) and
-- io_uring_setup(2) document it.
use liburing.Common.{
  ℕ, ◌+◌, ◌-◌, ◌*◌, ◌/◌, ◌%◌, ◌^◌, ◌<◌, ◌≡◌, ◌≢◌, refl, Bool, true, false, ◌&&◌, List, [], ◌∷◌,
  ◌++◌, ◌==◌, leb, if◌then◌else◌, arith,
}
use liburing.Common.Int.{ℤ, pos, negsuc, eqb, is_neg, is_nonzero}
use liburing.Sys.{RegArg, Call, Calls, Os, Params, MapKind, is_err, ptr_err, mapped_at}

-- A huge page
abbrev pub huge_page : ℕ
huge_page = 2 * 1024 * 1024

pub record Region : Type 0 where
  pub addr : ℕ
  pub len : ℕ
  pub huge : Bool

abbrev pub is_huge : MapKind → Bool
is_huge MapKind.shared_anonymous_hugetlb = true
is_huge _ = false

-- No region starts at the address.
abbrev pub Absent : ℕ → List Region → Type 0
Absent a [] = Unit
Absent a (x ∷ xs) = (x.addr ≢ a) × Absent a xs

module _ (page : ℕ) where
  -- The pages that a number of bytes takes
  abbrev pub pages : ℕ → ℕ
  pages n = (n + page - 1) / page

  -- What munmap(2) leaves of the region at its address: of huge pages only whole ones go, of others
  -- every page that the range touches.
  unfoldable pub rest_of : (l : ℕ) → Region → List Region
  rest_of l x =
      if x.huge
      then (if l == x.len && l % huge_page == 0 then [] else x ∷ [])
      else if leb (pages x.len) (pages l)
      then []
      else record { addr = x.addr + pages l * page; len = x.len - pages l * page; huge = false }
        ∷ []

  unfoldable pub unmapped : (a l : ℕ) → List Region → List Region
  unmapped a l [] = []
  unmapped a l (x ∷ xs) =
      let others = unmapped a l xs in if x.addr == a then rest_of l x ++ xs else x ∷ others

  -- The regions after one more call.
  unfoldable pub after_call : Os → Calls → Call → List Region → List Region
  after_call os t (Call.mmap l kind fd offset) rs =
      let a = mapped_at os t (Call.mmap l kind fd offset) in
      if is_err a then rs else record { addr = a; len = l; huge = is_huge kind } ∷ rs
  after_call os t (Call.munmap a l) rs = unmapped a l rs
  after_call os t _ rs = rs

  unfoldable pub regions : Os → Calls → List Region
  unfolding after_call
  regions os [] = []
  regions os (c ∷ t) = after_call os t c (regions os t)

  pub unmapped-same :
      (a l : ℕ) (rs : List Region)
      → unmapped a l (record { addr = a; len = l; huge = false } ∷ rs) ≡ rs
  unfolding unmapped rest_of
  unmapped-same a l rs = ground arith

  pub unmapped-other :
      (a l : ℕ) (x : Region) (rs : List Region)
      → x.addr ≢ a
      → unmapped a l (x ∷ rs) ≡ x ∷ unmapped a l rs
  unfolding unmapped
  unmapped-other a l x rs ne = ground (arith, ne)

  -- A new mapping is not at NULL and not where one is, and none is made of no bytes.
  pub record IsFresh (os : Os) : Type 0 where
    pub nonzero :
        (t : Calls) (l : ℕ) (kind : MapKind) (fd : ℤ) (offset : ℕ)
        → is_err (mapped_at os t (Call.mmap l kind fd offset)) ≡ false
        → mapped_at os t (Call.mmap l kind fd offset) ≢ 0
    pub apart :
        (t : Calls) (l : ℕ) (kind : MapKind) (fd : ℤ) (offset : ℕ)
        → is_err (mapped_at os t (Call.mmap l kind fd offset)) ≡ false
        → Absent (mapped_at os t (Call.mmap l kind fd offset)) (regions os t)
    pub some_bytes :
        (t : Calls) (l : ℕ) (kind : MapKind) (fd : ℤ) (offset : ℕ)
        → is_err (mapped_at os t (Call.mmap l kind fd offset)) ≡ false
        → l ≢ 0

closed : ℤ → List ℤ → List ℤ
closed fd [] = []
closed fd (x ∷ xs) = let others = closed fd xs in if eqb x fd then xs else x ∷ others

-- The descriptors of rings that are open.
unfoldable pub fds : Os → Calls → List ℤ
unfolding closed
fds os [] = []
fds os (Call.setup entries p ∷ t) =
    let others = fds os t in
    let fd = (os t (Call.setup entries p)).ret in if is_neg fd then others else fd ∷ others
fds os (Call.close fd ∷ t) = closed fd (fds os t)
fds os (_ ∷ t) = fds os t

eqb_refl : (z : ℤ) → eqb z z ≡ true
eqb_refl (pos n) = ground arith
eqb_refl (negsuc n) = ground arith

module _ (os : Os) (t : Calls) where
  pub fds-setup_failed :
      (entries : ℕ) (p : Params)
      → is_neg (os t (Call.setup entries p)).ret ≡ true
      → fds os (Call.setup entries p ∷ t) ≡ fds os t
  unfolding fds
  fds-setup_failed entries p e = rw e refl

  pub fds-setup :
      (entries : ℕ) (p : Params)
      → is_neg (os t (Call.setup entries p)).ret ≡ false
      → fds os (Call.setup entries p ∷ t) ≡ (os t (Call.setup entries p)).ret ∷ fds os t
  unfolding fds
  fds-setup entries p e = rw e refl

  -- Closing the descriptor that was opened last
  pub fds-close :
      (fd : ℤ) (rest : List ℤ) → fds os t ≡ fd ∷ rest → fds os (Call.close fd ∷ t) ≡ rest
  unfolding fds closed
  fds-close fd rest e = rw e (rw (eqb_refl fd) refl)

-- An error pointer reads as a negative result.
pub ptr_err-neg : (p : ℕ) → p < 2 ^ 64 → is_err p ≡ true → is_neg (ptr_err p) ≡ true
ptr_err-neg p fits bad = ground arith

-- A negative result is not 0.
pub nonzero_of_neg : (z : ℤ) → is_neg z ≡ true → is_nonzero z ≡ true
nonzero_of_neg (pos n) h = cc
nonzero_of_neg (negsuc n) h = refl

module _ (page : ℕ) (os : Os) where
  pub munmap-regions :
      (a l : ℕ) (t : Calls)
      → regions page os (Call.munmap a l ∷ t) ≡ unmapped page a l (regions page os t)
  unfolding regions after_call
  munmap-regions a l t = refl

  pub close-regions : (fd : ℤ) (t : Calls) → regions page os (Call.close fd ∷ t) ≡ regions page os t
  unfolding regions after_call
  close-regions fd t = refl

  pub munmap-fds : (a l : ℕ) (t : Calls) → fds os (Call.munmap a l ∷ t) ≡ fds os t
  unfolding fds
  munmap-fds a l t = refl

  pub register-regions :
      (fd : ℤ) (opcode : ℕ) (arg : RegArg) (nr_args : ℕ) (t : Calls)
      → regions page os (Call.register fd opcode arg nr_args ∷ t) ≡ regions page os t
  unfolding regions after_call
  register-regions fd opcode arg nr_args t = refl
