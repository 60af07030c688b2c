-- ===== src/Oplog/Capability/Chains.antt =====
-- `check_chain` accepts exactly the delegation chains of at most 64 capabilities.
use tessra.Prelude.{
  ℕ, zero, suc, ◌≤◌, ◌≡◌, refl, ap, sym, ◌∙◌, arith, Bool, true, false, Option, none, some, ◌↔◌,
  eqb, eqb_iff, contains, list_ord, nat_ord,
}
use tessra.Core.Result.{Result, ok, err, ◌>>=◌, >>=-eq-ok, ok-injective, Error}
use tessra.Core.Id.{ObjectId}
use tessra.Oplog.View.Data.{View}
use tessra.Oplog.View.Merge.{in_set}
use tessra.Oplog.Capability.{
  Capability, CapabilityStore, contained_in, reading, require, check_issuer, accept_parent,
  check_parent, check_end, check_loop, check_chain,
}

module _ (db : CapabilityStore) where
  open db use {nodes, load_principal, load_capability, verify_with}

  -- A chain of `n` capabilities that ends at one an owner issued.
  pub data Chain (s : nodes.State) (view : View) : Capability → ℕ → Type 0 where
    root :
        {c : Capability}
        → check_issuer db s view c ≡ ok tt
        → c.parent ≡ none
        → contains view.owners c.issuer ≡ true
        → Chain s view c 1
    link :
        {c parent : Capability} {pid : ObjectId} {n : ℕ}
        → check_issuer db s view c ≡ ok tt
        → c.parent ≡ some pid
        → reading (in_set nodes view.caps pid) s ≡ ok true
        → load_capability s pid ≡ ok parent
        → parent.subject ≡ c.issuer
        → parent.delegable ≡ true
        → contained_in c parent ≡ true
        → Chain s view parent n
        → Chain s view c (suc n)

  require_then :
      {A : Type 0} {a : A} (b : Bool) (r : Unit {0} → Result A)
      → (require db b >>= r) ≡ ok a
      → (b ≡ true) × (r tt ≡ ok a)
  unfolding require
  require_then true r e = (refl, e)
  require_then false r e = cc

  require_lem : (b : Bool) → require db b ≡ ok tt → b ≡ true
  unfolding require
  require_lem true e = refl
  require_lem false e = cc

  accept_parent-ok :
      (c p parent : Capability)
      → accept_parent db c p ≡ ok parent
      → (p ≡ parent) × (p.subject ≡ c.issuer) × (p.delegable ≡ true) × (contained_in c p ≡ true)
  unfolding accept_parent
  accept_parent-ok c p parent e =
      let (subject, e1) =
        require_then (eqb p.subject c.issuer)
          (λ _. require db p.delegable >>= λ _. require db (contained_in c p) >>= λ _. ok p) e in
      let (delegable, e2) =
        require_then p.delegable (λ _. require db (contained_in c p) >>= λ _. ok p) e1 in
      let (contained, e3) = require_then (contained_in c p) (λ _. ok p) e2 in
      (ok-injective e3, (eqb_iff p.subject c.issuer).0 subject, delegable, contained)

  check_parent-ok :
      (s : nodes.State) (view : View) (c parent : Capability) (pid : ObjectId)
      → check_parent db s view c pid ≡ ok parent
      → (reading (in_set nodes view.caps pid) s ≡ ok true)
        × (load_capability s pid ≡ ok parent)
        × (parent.subject ≡ c.issuer)
        × (parent.delegable ≡ true)
        × (contained_in c parent ≡ true)
  unfolding check_parent
  check_parent-ok s view c parent pid e =
      let (active, r, e1) =
        >>=-eq-ok (reading (in_set nodes view.caps pid) s)
          (λ active. require db active >>= λ _. load_capability s pid >>= λ p. accept_parent db c p)
          e in
      let (is_active, e2) =
        require_then active (λ _. load_capability s pid >>= λ p. accept_parent db c p) e1 in
      let (p, l, e3) = >>=-eq-ok (load_capability s pid) (λ p. accept_parent db c p) e2 in
      let (same, subject, delegable, contained) = accept_parent-ok c p parent e3 in
      (
        r ∙ ap ok is_active,
        l ∙ ap ok same,
        ap (λ q. q.subject) (sym same) ∙ subject,
        ap (λ q. q.delegable) (sym same) ∙ delegable,
        ap (λ q. contained_in c q) (sym same) ∙ contained,
      )

  check_end-Chain :
      (guard : ℕ) (s : nodes.State) (view : View) (c : Capability) (o : Option ObjectId)
      → check_issuer db s view c ≡ ok tt
      → c.parent ≡ o
      → ((parent : Capability)
          → check_loop db guard s view parent ≡ ok tt
          → (n : ℕ) × (n ≤ guard) × Chain s view parent n)
      → check_end db s view c o (λ parent. check_loop db guard s view parent) ≡ ok tt
      → (n : ℕ) × (n ≤ suc guard) × Chain s view c n
  unfolding check_end
  check_end-Chain guard s view c none i p ih e =
      (1, omega arith, root i p (require_lem (contains view.owners c.issuer) e))
  check_end-Chain guard s view c (some pid) i p ih e =
      let (parent, e1, e2) =
        >>=-eq-ok (check_parent db s view c pid) (λ parent. check_loop db guard s view parent) e in
      let (active, loaded, subject, delegable, contained) =
        check_parent-ok s view c parent pid e1 in
      let (n, below, chain) = ih parent e2 in
      (suc n, omega arith, link i p active loaded subject delegable contained chain)

  check_loop-Chain :
      (guard : ℕ) (s : nodes.State) (view : View) (c : Capability)
      → check_loop db guard s view c ≡ ok tt
      → (n : ℕ) × (n ≤ guard) × Chain s view c n
  unfolding check_loop
  check_loop-Chain zero s view c e = absurd (no e)
    where
      no : ◌≡◌ {A = Result (Unit {0})} (err (Error.rejected 6)) (ok tt) → ⊥
      no e = cc
  check_loop-Chain (suc guard) s view c e =
      let (t, i, e1) =
        >>=-eq-ok (check_issuer db s view c)
          (λ _. check_end db s view c c.parent (λ parent. check_loop db guard s view parent)) e in
      check_end-Chain guard s view c c.parent i refl
        (λ parent. check_loop-Chain guard s view parent) e1

  goes_on :
      {A B : Type 0} {a : A} (r : Result A) (rest : A → Result B) → r ≡ ok a → (r >>= rest) ≡ rest a
  goes_on r rest e = ap (λ x. x >>= rest) e

  passes :
      {A : Type 0} (b : Bool) (rest : Unit {0} → Result A)
      → b ≡ true
      → (require db b >>= rest) ≡ rest tt
  passes b rest h = goes_on (require db b) rest (rw h (unfold require in refl))

  check_parent-yes :
      (s : nodes.State) (view : View) (c p : Capability) (pid : ObjectId)
      → reading (in_set nodes view.caps pid) s ≡ ok true
      → load_capability s pid ≡ ok p
      → p.subject ≡ c.issuer
      → p.delegable ≡ true
      → contained_in c p ≡ true
      → check_parent db s view c pid ≡ ok p
  unfolding check_parent accept_parent
  check_parent-yes s view c p pid active loaded subject delegable contained =
      goes_on (reading (in_set nodes view.caps pid) s)
        (λ active. require db active >>= λ _. load_capability s pid >>= λ q. accept_parent db c q)
        active
      ∙ passes true (λ _. load_capability s pid >>= λ q. accept_parent db c q) refl
      ∙ goes_on (load_capability s pid) (λ q. accept_parent db c q) loaded
      ∙ passes (eqb p.subject c.issuer)
          (λ _. require db p.delegable >>= λ _. require db (contained_in c p) >>= λ _. ok p)
          ((eqb_iff p.subject c.issuer).1 subject)
      ∙ passes p.delegable (λ _. require db (contained_in c p) >>= λ _. ok p) delegable
      ∙ passes (contained_in c p) (λ _. ok p) contained

  Chain-check_loop :
      {s : nodes.State} {view : View} {c : Capability} {n : ℕ} (guard : ℕ)
      → n ≤ guard
      → Chain s view c n
      → check_loop db guard s view c ≡ ok tt
  unfolding check_loop check_end
  Chain-check_loop zero b (root i p o) = absurd (omega arith)
  Chain-check_loop zero b (link i p a l s d c chain) = absurd (omega arith)
  Chain-check_loop {s} {view} {c} (suc guard) b (root i p o) =
      goes_on (check_issuer db s view c)
        (λ _. check_end db s view c c.parent (λ parent. check_loop db guard s view parent)) i
      ∙ ap (λ q. check_end db s view c q (λ parent. check_loop db guard s view parent)) p
      ∙ rw o (unfold require in refl)
  Chain-check_loop {s} {view} {c} (suc guard) b
        (link {parent = parent} {pid = pid} i p active loaded subject delegable contained chain) =
      goes_on (check_issuer db s view c)
        (λ _. check_end db s view c c.parent (λ parent. check_loop db guard s view parent)) i
      ∙ ap (λ q. check_end db s view c q (λ parent. check_loop db guard s view parent)) p
      ∙ goes_on (check_parent db s view c pid) (λ parent. check_loop db guard s view parent)
          (check_parent-yes s view c parent pid active loaded subject delegable contained)
      ∙ Chain-check_loop guard (omega arith) chain

  -- A capability passes exactly if it has a delegation chain of at most 64 capabilities: every issuer
  -- is known, active, not revoked and signed it, every parent is active, delegable, was given to the
  -- issuer and contains the child, and the last issuer is an owner.
  pub check_chain_iff :
      (s : nodes.State) (view : View) (c : Capability)
      → (check_chain db s view c ≡ ok tt) ↔ ((n : ℕ) × (n ≤ 64) × Chain s view c n)
  unfolding check_chain
  check_chain_iff s view c =
      (check_loop-Chain 64 s view c, λ (n, b, chain). Chain-check_loop 64 b chain)
