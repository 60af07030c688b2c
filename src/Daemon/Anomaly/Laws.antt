-- ===== src/Daemon/Anomaly/Laws.antt =====
-- Thresholds, the lengths of the logs, and anomalies that count once.
use tessra.Prelude.{
  ℕ, suc, ◌+◌, ◌*◌, ◌≤◌, ◌≡◌, refl, ap, sym, ◌∙◌, arith, Bool, true, false, not, ◌&&◌, List, [],
  ◌∷◌, ◌++◌, Bytes, codes, length, length-append, drop, Option, some, is_some, if◌then◌else◌, ltb,
  leb, eqb, eqb_refl, contains, contains-append, lookup, put, lookup-put, Bool-cases, inl, inr, ◌⊎◌,
  list_ord, nat_ord,
}
use tessra.Core.Result.{Result, ok, ◌>>=◌, >>=-eq-ok, ok-injective}
use tessra.Core.Id.{EntityId}
use tessra.Core.Value.{Value}
use tessra.Daemon.Anomaly.{
  AnomalyState, or_default, load, push_capped, Repo, Report, report, charge, throttle, wrap_i64,
  throttle_at, revoke_at, cooldown, revoke_now, throttle_now, settle,
}

module _ {A : Type 0} where
  length-drop_one : (xs : List A) (n : ℕ) → length xs ≤ suc n → length (drop 1 xs) ≤ n
  length-drop_one [] n h = omega arith
  length-drop_one (x ∷ xs) n h = omega arith

  pub length-push_capped :
      (cap : ℕ) (x : A) (xs : List A) → length xs ≤ cap → length (push_capped cap x xs) ≤ cap
  unfolding push_capped
  length-push_capped cap x xs h = elim (Bool-cases (ltb cap (length (xs ++ x ∷ [])))) [
    | inl more ↦
        rw more (length-drop_one (xs ++ x ∷ []) cap (omega (arith, length-append xs (x ∷ []))))
    | inr fits ↦ rw fits (ground arith)
  ]

pub contains-push_capped :
    (cap : ℕ) (x : Bytes) (xs : List Bytes) → contains (push_capped (suc cap) x xs) x ≡ true
unfolding push_capped contains
contains-push_capped cap x [] = ground (arith, eqb_refl x)
contains-push_capped cap x (y ∷ xs) = ground (arith, contains-append xs (x ∷ []) x, eqb_refl x)

pub load-put :
    (files : List (EntityId × AnomalyState)) (a b : EntityId) (s : AnomalyState)
    → load (put a s files) b ≡ (if eqb a b then s else load files b)
unfolding load
load-put files a b s = ap or_default (lookup-put a s files b) ∙ pick (eqb a b)
  where
    pick :
        (c : Bool)
        → or_default (if c then some s else lookup b files)
          ≡ (if c then s else or_default (lookup b files))
    pick true = unfold or_default in refl
    pick false = refl

pub load-put_same :
    (files : List (EntityId × AnomalyState)) (a : EntityId) (s : AnomalyState)
    → load (put a s files) a ≡ s
load-put_same files a s = load-put files a a s ∙ rw (eqb_refl a) refl

and_not : (b : Bool) → false ≡ (b && not true)
and_not b = ground arith

-- At most fifty events and two hundred charged keys.
abbrev pub IsBounded : AnomalyState → Type 0
IsBounded s = (length s.events ≤ 50) × (length s.charged ≤ 200)

pub charge-IsBounded :
    (s : AnomalyState) (now : ℕ) (what : Bytes) (points : ℕ)
    → IsBounded s
    → IsBounded (charge s now what points)
unfolding charge
charge-IsBounded s now what points (e, c) = (length-push_capped 50 (now, what) s.events e, c)

module _ {W : Type 0} (session_agent : W → EntityId → Option EntityId)
    (config : W → Bytes → Option Value) (revoke_agent : W → EntityId → Result W)
    (fire : W → Bytes → Report → Result W) where
  abbrev pub settled : Repo W → EntityId → ℕ → AnomalyState → Result (Option Report × Repo W)
  settled repo a now s = settle session_agent config revoke_agent fire repo a now s

  -- The outcome of the three cases.
  abbrev pub IsSettled : Repo W → EntityId → ℕ → AnomalyState → Option Report → Repo W → Type 0
  IsSettled repo a now s o repo' =
      (r : Report) × (s' : AnomalyState) × (o ≡ some r)
      × (repo'.files ≡ put a s' repo.files)
      × (r.score ≡ s.score)
      × (s'.score ≡ s.score)
      × (s'.events ≡ s.events)
      × (s'.charged ≡ s.charged)
      × (r.revoked ≡ leb (revoke_at session_agent config revoke_agent fire repo.world) s.score)
      × (is_some r.throttled_s ≡ (
          leb (throttle_at session_agent config revoke_agent fire repo.world) s.score
          && not r.revoked))
      × (is_some r.throttled_s ≡ true
          → s'.throttled_until
            ≡ wrap_i64
                (now + cooldown session_agent config revoke_agent fire repo.world * 1000000000))

  abbrev report_revoked : EntityId → AnomalyState → Report
  report_revoked a s = record (report a s.score) { revoked = true }

  abbrev report_throttled : Repo W → EntityId → AnomalyState → Report
  report_throttled repo a s = record (report a s.score) {
    throttled_s = some (wrap_i64 (cooldown session_agent config revoke_agent fire repo.world));
  }

  abbrev saved : Repo W → EntityId → AnomalyState → Report → W → Result (Option Report × Repo W)
  saved repo a s r w = ok (some r, record { files = put a s repo.files; world = w })

  revoke_now-IsSettled :
      (repo repo' : Repo W) (a : EntityId) (now : ℕ) (s : AnomalyState) (o : Option Report)
      → leb (revoke_at session_agent config revoke_agent fire repo.world) s.score ≡ true
      → revoke_now session_agent config revoke_agent fire repo a s ≡ ok (o, repo')
      → IsSettled repo a now s o repo'
  unfolding revoke_now
  revoke_now-IsSettled repo repo' a now s o over e =
      let (w, e1, e2) =
        >>=-eq-ok (revoke_agent repo.world a)
          (λ w.
            fire w (codes "anomaly.revoked") (report_revoked a s)
            >>= saved repo a s (report_revoked a s))
          e in
      let (w', e3, e4) =
        >>=-eq-ok (fire w (codes "anomaly.revoked") (report_revoked a s))
          (saved repo a s (report_revoked a s)) e2 in
      let same = ok-injective e4 in
      (
        report_revoked a s,
        s,
        sym (ap (λ p. p.0) same),
        sym (ap (λ p. p.1.files) same),
        refl,
        refl,
        refl,
        refl,
        sym over,
        and_not (leb (throttle_at session_agent config revoke_agent fire repo.world) s.score),
        λ t. absurd (no t),
      )
    where
      no : false ≡ true → ⊥
      no t = cc

  throttle_now-IsSettled :
      (repo repo' : Repo W) (a : EntityId) (now : ℕ) (s : AnomalyState) (o : Option Report)
      → leb (revoke_at session_agent config revoke_agent fire repo.world) s.score ≡ false
      → leb (throttle_at session_agent config revoke_agent fire repo.world) s.score ≡ true
      → throttle_now session_agent config revoke_agent fire repo a now s ≡ ok (o, repo')
      → IsSettled repo a now s o repo'
  unfolding throttle_now
  throttle_now-IsSettled repo repo' a now s o under over e =
      let (w, e1, e2) =
        >>=-eq-ok (fire repo.world (codes "anomaly.detected") (report_throttled repo a s))
          (saved repo a
            (throttle s now (cooldown session_agent config revoke_agent fire repo.world))
            (report_throttled repo a s))
          e in
      let same = ok-injective e2 in
      (
        report_throttled repo a s,
        throttle s now (cooldown session_agent config revoke_agent fire repo.world),
        sym (ap (λ p. p.0) same),
        sym (ap (λ p. p.1.files) same),
        refl,
        unfold throttle in refl,
        unfold throttle in refl,
        unfold throttle in refl,
        sym under,
        rw over refl,
        λ t. unfold throttle in refl,
      )

  three_way :
      {A : Type 0} (b c : Bool) (x y z r : A)
      → (if b then x else if c then y else z) ≡ r
      → (b ≡ true) × (x ≡ r)
        ⊎ (b ≡ false) × (c ≡ true) × (y ≡ r)
        ⊎ (b ≡ false) × (c ≡ false) × (z ≡ r)
  three_way true c x y z r e = inl (refl, e)
  three_way false true x y z r e = inr (inl (refl, refl, e))
  three_way false false x y z r e = inr (inr (refl, refl, e))

  pub settle-IsSettled :
      (repo repo' : Repo W) (a : EntityId) (now : ℕ) (s : AnomalyState) (o : Option Report)
      → settled repo a now s ≡ ok (o, repo')
      → IsSettled repo a now s o repo'
  unfolding settle
  settle-IsSettled repo repo' a now s o e =
      elim (three_way (leb (revoke_at session_agent config revoke_agent fire repo.world) s.score)
        (leb (throttle_at session_agent config revoke_agent fire repo.world) s.score)
        (revoke_now session_agent config revoke_agent fire repo a s)
        (throttle_now session_agent config revoke_agent fire repo a now s)
        (saved repo a s (report a s.score) repo.world) (ok (o, repo')) e) [
          | inl (over, e') ↦ revoke_now-IsSettled repo repo' a now s o over e'
          | inr (inl (under, over, e')) ↦ throttle_now-IsSettled repo repo' a now s o under over e'
          | inr (inr (under, under', e')) ↦ (
            report a s.score,
            s,
            sym (ap (λ p. p.0) (ok-injective e')),
            sym (ap (λ p. p.1.files) (ok-injective e')),
            refl,
            refl,
            refl,
            refl,
            sym under,
            rw under' refl,
            λ t. absurd (no t),
          )
        ]
    where
      no : false ≡ true → ⊥
      no t = cc
