-- ===== src/Prelude/FilePath.antt =====
-- Go's packages path and path/filepath on Unix, as far as the program calls them on absolute paths.
use mathlib.Core.Bool.{Bool, true, false, not, ◌&&◌}
use mathlib.Core.List.{List, [], ◌∷◌}
use schooner.Prelude.Tests.{◌==◌, nat_eq}
use schooner.Prelude.Text.{Bytes, split}

-- A component that `Clean` keeps: not empty, and neither `.` nor `..`.
unfoldable pub is_plain : Bytes → Bool
is_plain [] = false
is_plain (c ∷ []) = not (c == b'.')
is_plain (c ∷ d ∷ []) = not (c == b'.' && d == b'.')
is_plain (c ∷ d ∷ e ∷ s) = true

unfoldable pub all_plain : List Bytes → Bool
unfolding is_plain
all_plain [] = true
all_plain (p ∷ ps) = is_plain p && all_plain ps

-- `IsAbs(p) && Clean(p) == p`: the root, or components behind single slashes.
unfoldable pub is_clean_absolute : Bytes → Bool
unfolding all_plain split
is_clean_absolute [] = false
is_clean_absolute (c ∷ []) = c == b'/'
is_clean_absolute (c ∷ d ∷ s) = c == b'/' && all_plain (split b'/' (d ∷ s))
