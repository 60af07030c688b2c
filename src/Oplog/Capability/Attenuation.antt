-- ===== src/Oplog/Capability/Attenuation.antt =====
-- A delegated capability grants no verb and no scope that its owner-issued root does not.
use tessra.Prelude.{◌≡◌, Bool, true, List, Bytes, all, contains, list_ord, nat_ord}
use tessra.Oplog.View.Data.{View}
use tessra.Oplog.Capability.{Capability, list_ok}

abbrev inside : List Bytes → List Bytes → Bool
inside cs ps = all (λ x. contains ps x) cs

-- No verb, root, stage, scope of memory, node, line or target beyond those of `p`; a scope that is
-- absent is everything.
abbrev pub IsWithin : Capability → Capability → Type 0
IsWithin c p =
    (all (λ v. contains p.verbs v) c.verbs ≡ true)
    × (list_ok c.write.roots p.write.roots ≡ true)
    × (list_ok c.write.stages p.write.stages ≡ true)
    × (list_ok c.write.memory_scopes p.write.memory_scopes ≡ true)
    × (list_ok c.write.nodes p.write.nodes ≡ true)
    × (list_ok c.write.lines p.write.lines ≡ true)
    × (list_ok c.write.targets p.write.targets ≡ true)
