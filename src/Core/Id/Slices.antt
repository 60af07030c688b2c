-- ===== src/Core/Id/Slices.antt =====
-- Which slices are IDs.
use tessra.Prelude.{◌≡◌, Bytes, length, ==_iff}
use tessra.Core.Result.{ok}
use tessra.Core.Id.{object_from_slice}

pub object_from_slice-ok : (i : Bytes) → length i ≡ 32 → object_from_slice i ≡ ok i
unfolding object_from_slice
object_from_slice-ok i h = rw ((==_iff (length i) 32).1 h)
