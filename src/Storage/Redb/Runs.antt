-- ===== src/Storage/Redb/Runs.antt =====
-- A database of three association lists, and the refinement at concrete puts and batches.
use tessra.Prelude.{
  ℕ, ◌≡◌, refl, ap, arith, List, [], ◌∷◌, Bytes, codes, Option, none, some, if◌then◌else◌, eqb,
  lookup, lookup-put, put, list_ord, nat_ord,
}
use tessra.Prelude
use tessra.Core.Hash.Domains.{IsInjective}
use tessra.Core.Store
use tessra.Storage.Redb.Tables.{Table, Database}
use tessra.Storage.Redb.{RedbStore, get_bytes, set_heads, heads, idem_put, idem_get}
use tessra.Storage.Redb.Refines.{IsSame}
use tessra.Storage.Redb.Heads.{heads-set_heads}
use tessra.Storage.Redb.Batches.{Action, run, run_in_memory, run-IsSame}

record Lists : Type 0 where
  objects : List (Bytes × Bytes)
  meta : List (Bytes × Bytes)
  idem : List (Bytes × Bytes)

abbrev table : Lists → Table → List (Bytes × Bytes)
table s Table.objects = s.objects
table s Table.meta = s.meta
table s Table.idem = s.idem

abbrev with_table : Lists → Table → List (Bytes × Bytes) → Lists
with_table s Table.objects l = record s { objects = l }
with_table s Table.meta l = record s { meta = l }
with_table s Table.idem l = record s { idem = l }

table-same : (s : Lists) (t : Table) (l : List (Bytes × Bytes)) → table (with_table s t l) t ≡ l
table-same s Table.objects l = refl
table-same s Table.meta l = refl
table-same s Table.idem l = refl

table-other :
    (s : Lists) (t u : Table) (l : List (Bytes × Bytes))
    → (t ≡ u → ⊥)
    → table (with_table s t l) u ≡ table s u
table-other s Table.objects Table.objects l h = absurd (h refl)
table-other s Table.objects Table.meta l h = refl
table-other s Table.objects Table.idem l h = refl
table-other s Table.meta Table.objects l h = refl
table-other s Table.meta Table.meta l h = absurd (h refl)
table-other s Table.meta Table.idem l h = refl
table-other s Table.idem Table.objects l h = refl
table-other s Table.idem Table.meta l h = refl
table-other s Table.idem Table.idem l h = absurd (h refl)

abbrev lists : Database
lists = record {
  State = Lists;
  get = λ s t k. lookup k (table s t);
  insert = λ s t k v. with_table s t (put k v (table s t));
  keys = λ s t. Prelude.keys (table s t);
  get_insert =
      λ s t k v j. rw (table-same s t (put k v (table s t))) (lookup-put k v (table s t) j);
  get_other = λ s t u k v j h. ap (lookup j) (table-other s t u (put k v (table s t)) h);
}

abbrev plain_hash : Bytes → Bytes
plain_hash b = b

plain_hash-IsInjective : IsInjective plain_hash
plain_hash-IsInjective a b e = e

abbrev empty : RedbStore lists
empty = record { db = record { objects = []; meta = []; idem = [] }; pending = none }

abbrev actions : List Action
actions =
    Action.start_batch
    ∷ Action.put_object (codes "a") (codes "x")
    ∷ Action.stop_batch
    ∷ Action.put_object (codes "b") (codes "y")
    ∷ []

run-IsSame_example :
    IsSame
      (λ b. b)
      lists
      plain_hash
      plain_hash-IsInjective
      (run (λ b. b) lists plain_hash actions empty)
      (run_in_memory (λ b. b) lists plain_hash actions [])
unfolding lookup get_bytes Store.get_bytes
run-IsSame_example =
    run-IsSame (λ b. b) lists plain_hash plain_hash-IsInjective actions empty []
      (tt, ((omega arith, (λ e. cc, tt)), (tt, ((omega arith, (λ e. cc, tt)), tt))))
      (λ id rec e. cc, λ id rec e. cc) (λ id bytes e. cc) (λ id. refl)

abbrev first_id : Bytes
first_id = Prelude.replicate 32 1

heads-set_heads_example :
    heads (λ b. b) lists (set_heads (λ b. b) lists empty (first_id ∷ first_id ∷ []))
    ≡ first_id ∷ first_id ∷ []
heads-set_heads_example =
    heads-set_heads (λ b. b) lists empty (first_id ∷ first_id ∷ []) (refl, (refl, tt))

known :
    idem_get
      (λ b. b)
      lists
      (idem_put (λ b. b) lists empty (codes "a") (codes "b") first_id)
      (codes "a")
      (codes "b")
    ≡ some first_id
unfolding idem_get idem_put lookup put eqb
known = refl
