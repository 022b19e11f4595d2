-- ===== src/Tests/Version.antt =====
-- The version check on a release of the library
use liburing.Common.{◌≡◌, refl, false}
use liburing.Common.Int.{pos}
use liburing.Version.{check_version}

-- Release 2.8 says no where 2.4 is asked for.
check_version-older : check_version (pos 2) (pos 8) (pos 2) (pos 4) ≡ false
unfolding check_version
check_version-older = refl
