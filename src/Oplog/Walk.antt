-- ===== src/Oplog/Walk.antt =====
-- The breadth-first walk of `ancestors` (crates/tessra-oplog/src/dag.rs) and of `landed_revisions`
-- (crates/tessra-oplog/src/verify.rs): a set of what was seen and a queue.
pub mod Reached
pub mod Ends
use tessra.Prelude.{
  ℕ, zero, suc, Bool, true, false, List, [], ◌∷◌, ◌++◌, if◌then◌else◌, contains, insert, list_ord,
  nat_ord,
}
use tessra.Core.Result.{Result, ok, err, ◌>>=◌, Error}
use tessra.Core.Id.{ObjectId}

-- `next` gives what is queued after an ID; `fuel` bounds the rounds.
unfoldable pub walk :
    (ObjectId → Result (List ObjectId)) → ℕ → List ObjectId → List ObjectId → Result (List ObjectId)
walk next fuel seen [] = ok seen
walk next zero seen (i ∷ queue) = err Error.stuck
walk next (suc fuel) seen (i ∷ queue) =
    let skip = walk next fuel seen queue in
    let read = (next i >>= λ more. walk next fuel (insert i seen) (queue ++ more)) in
    if contains seen i then skip else read
