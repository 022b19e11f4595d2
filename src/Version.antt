-- ===== src/Version.antt =====
-- version.c, and IO_URING_CHECK_VERSION of include/liburing.h. The version of the library is written by configure.
use liburing.Common.{ℕ, ◌<◌, ◌≤◌, ◌≡◌, ◌↔◌, ◌⊎◌, Bool, true, false, not, ◌&&◌, ◌||◌, ltb, arith}
use liburing.Common.Int.{ℤ, pos, negsuc, eqb}

-- `a > b`
abbrev pub gt : ℤ → ℤ → Bool
gt (pos a) (pos b) = ltb b a
gt (pos a) (negsuc b) = true
gt (negsuc a) (pos b) = false
gt (negsuc a) (negsuc b) = ltb a b

module _ (version_major version_minor : ℤ) where
  abbrev pub major_version : ℤ
  major_version = version_major

  abbrev pub minor_version : ℤ
  minor_version = version_minor

  unfoldable pub check_version : (major minor : ℤ) → Bool
  check_version major minor =
      gt major major_version || (eqb major major_version && not (gt minor_version minor))

  -- IO_URING_CHECK_VERSION
  unfoldable pub check_version_macro : (major minor : ℤ) → Bool
  check_version_macro major minor =
      gt major version_major || (eqb major version_major && not (gt version_minor minor))

-- For versions that are not negative the check is true exactly of the library's version and later ones.
check_version-newest :
    (version_major version_minor major minor : ℕ)
    → (check_version (pos version_major) (pos version_minor) (pos major) (pos minor) ≡ true)
      ↔ ((version_major < major) ⊎ ((version_major ≡ major) × (version_minor ≤ minor)))
unfolding check_version
check_version-newest version_major version_minor major minor = ground arith
