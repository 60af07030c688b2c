-- ===== src/Daemon/Anomaly/Once.antt =====
-- `record_once`: one cause counts once, and the logs stay short.
use tessra.Prelude.{
  ℕ, ◌≤◌, ◌≡◌, refl, ap, sym, subst, ◌∙◌, Bool, true, false, Bytes, length, Option, none, some,
  if◌then◌else◌, eqb, contains, put, inl, inr, ◌⊎◌, list_ord, nat_ord,
}
use tessra.Core.Result.{Result, ok, ok-injective}
use tessra.Core.Id.{EntityId}
use tessra.Core.Value.{Value}
use tessra.Daemon.Anomaly.{
  AnomalyState, load, push_capped, Repo, Report, charge, record_agent, record_anomaly,
  record_once_agent, record_once,
}
use tessra.Daemon.Anomaly.Laws.{
  length-push_capped, contains-push_capped, load-put, load-put_same, IsBounded, charge-IsBounded,
  settle-IsSettled,
}

module _ {W : Type 0} (session_agent : W → EntityId → Option EntityId)
    (config : W → Bytes → Option Value) (revoke_agent : W → EntityId → Result W)
    (fire : W → Bytes → Report → Result W) where
  -- The state of the agent with one more charged key.
  abbrev marked : AnomalyState → Bytes → AnomalyState
  marked s key = record s { charged = push_capped 200 key s.charged }

  abbrev with_state : Repo W → EntityId → AnomalyState → Repo W
  with_state repo a s = record { files = put a s repo.files; world = repo.world }

  -- What a call for an agent leaves: the repository as it was, or a charge on the marked state.
  abbrev IsOnce : Repo W → Repo W → ℕ → EntityId → Bytes → ℕ → Bytes → Type 0
  IsOnce repo repo' now a what points key =
      (contains (load repo.files a).charged key ≡ true) × (repo ≡ repo')
      ⊎ ((s' : AnomalyState) × (repo'.files
            ≡ put a s' (put a (marked (load repo.files a) key) repo.files))
          × (s'.events ≡ (charge (marked (load repo.files a) key) now what points).events)
          × (s'.charged ≡ push_capped 200 key (load repo.files a).charged))

  two_way :
      {A : Type 0} (b : Bool) (x y r : A)
      → (if b then x else y) ≡ r
      → (b ≡ true) × (x ≡ r) ⊎ (b ≡ false) × (y ≡ r)
  two_way true x y r e = inl (refl, e)
  two_way false x y r e = inr (refl, e)

  charged-charge :
      (s : AnomalyState) (now : ℕ) (what : Bytes) (points : ℕ)
      → (charge s now what points).charged ≡ s.charged
  unfolding charge
  charged-charge s now what points = refl

  fresh-IsOnce :
      (repo repo' : Repo W) (now : ℕ) (p a : EntityId) (what : Bytes) (points : ℕ) (key : Bytes)
      (o : Option Report)
      → session_agent repo.world p ≡ some a
      → record_anomaly session_agent config revoke_agent fire
          (with_state repo a (marked (load repo.files a) key))
          now
          p
          what
          points
        ≡ ok (o, repo')
      → IsOnce repo repo' now a what points key
  unfolding record_anomaly record_agent
  fresh-IsOnce repo repo' now p a what points key o agent e =
      let m = marked (load repo.files a) key in
      let same = load-put_same repo.files a (marked (load repo.files a) key) in
      let (r, s', eo, files, rs, ss, se, sc, revoked, throttled, until) =
        settle-IsSettled session_agent config revoke_agent fire
          (with_state repo a (marked (load repo.files a) key)) repo' a now
          (charge (load (put a (marked (load repo.files a) key) repo.files) a) now what points) o
          (ap
              (λ x.
                record_agent session_agent config revoke_agent fire
                  (with_state repo a (marked (load repo.files a) key)) now x what points)
              (sym agent)
            ∙ e) in
      inr (
        s',
        files,
        se ∙ ap (λ s. (charge s now what points).events) same,
        sc
            ∙ charged-charge (load (put a (marked (load repo.files a) key) repo.files) a) now what
                points
            ∙ ap (λ s. s.charged) same,
      )

  record_once-IsOnce :
      (repo repo' : Repo W) (now : ℕ) (p a : EntityId) (what : Bytes) (points : ℕ) (key : Bytes)
      (o : Option Report)
      → session_agent repo.world p ≡ some a
      → record_once session_agent config revoke_agent fire repo now p what points key
        ≡ ok (o, repo')
      → IsOnce repo repo' now a what points key
  unfolding record_once record_once_agent
  record_once-IsOnce repo repo' now p a what points key o agent e =
      elim (two_way (contains (load repo.files a).charged key) (ok (none, repo))
        (record_anomaly session_agent config revoke_agent fire
          (with_state repo a (marked (load repo.files a) key)) now p what points)
        (ok (o, repo'))
        (ap
            (λ x.
              record_once_agent session_agent config revoke_agent fire repo now p x what points key)
            (sym agent)
          ∙ e)) [
            | inl (hit, e') ↦ inl (hit, ap (λ q. q.1) (ok-injective e'))
            | inr (miss, e') ↦ fresh-IsOnce repo repo' now p a what points key o agent e'
          ]

  once-charged :
      (repo repo' : Repo W) (now : ℕ) (a : EntityId) (what : Bytes) (points : ℕ) (key : Bytes)
      → IsOnce repo repo' now a what points key
      → contains (load repo'.files a).charged key ≡ true
  once-charged repo repo' now a what points key (inl (hit, same)) =
      ap (λ r. contains (load r.files a).charged key) (sym same) ∙ hit
  once-charged repo repo' now a what points key (inr (s', files, events, charged)) =
      ap (λ f. contains (load f a).charged key) files
      ∙ ap (λ s. contains s.charged key) (load-put_same _ a s')
      ∙ ap (λ l. contains l key) charged
      ∙ contains-push_capped 199 key (load repo.files a).charged

  -- A second anomaly of the same cause changes nothing, whatever the time, the text and the points.
  record_once-again :
      (repo repo' : Repo W) (now now' : ℕ) (p a : EntityId) (what what' : Bytes)
      (points points' : ℕ) (key : Bytes) (o : Option Report)
      → session_agent repo.world p ≡ some a
      → session_agent repo'.world p ≡ some a
      → record_once session_agent config revoke_agent fire repo now p what points key
        ≡ ok (o, repo')
      → record_once session_agent config revoke_agent fire repo' now' p what' points' key
        ≡ ok (none, repo')
  unfolding record_once record_once_agent
  record_once-again repo repo' now now' p a what what' points points' key o agent agent' e =
      ap
        (λ x.
          record_once_agent session_agent config revoke_agent fire repo' now' p x what' points' key)
        agent'
      ∙ rw
          (once-charged repo repo' now a what points key
            (record_once-IsOnce repo repo' now p a what points key o agent e))
          refl

  either_IsBounded :
      (c : Bool) (x y : AnomalyState) → IsBounded x → IsBounded y → IsBounded (if c then x else y)
  either_IsBounded true x y hx hy = hx
  either_IsBounded false x y hx hy = hy

  once-IsBounded :
      (repo repo' : Repo W) (now : ℕ) (a b : EntityId) (what : Bytes) (points : ℕ) (key : Bytes)
      → IsOnce repo repo' now a what points key
      → ((c : EntityId) → IsBounded (load repo.files c))
      → IsBounded (load repo'.files b)
  once-IsBounded repo repo' now a b what points key (inl (hit, same)) h =
      subst (λ r. IsBounded (load r.files b)) same (h b)
  once-IsBounded repo repo' now a b what points key (inr (s', files, events, charged)) h =
      subst IsBounded (sym (found b)) (
        either_IsBounded (eqb a b) s' (load (put a (marked (load repo.files a) key) repo.files) b)
          state
          (subst IsBounded (sym (load-put repo.files a b (marked (load repo.files a) key))) (
            either_IsBounded (eqb a b) (marked (load repo.files a) key) (load repo.files b) mark
              (h b))))
    where
      found :
          (c : EntityId)
          → load repo'.files c
            ≡ (if eqb a c then s' else load (put a (marked (load repo.files a) key) repo.files) c)
      found c = ap (λ f. load f c) files ∙ load-put _ a c s'

      mark : IsBounded (marked (load repo.files a) key)
      mark = ((h a).0, length-push_capped 200 key (load repo.files a).charged (h a).1)

      state : IsBounded s'
      state = (
        subst (λ l. length l ≤ 50) (sym events)
            (charge-IsBounded (marked (load repo.files a) key) now what points mark).0,
        subst (λ l. length l ≤ 200) (sym charged) mark.1,
      )

  -- Every agent keeps at most fifty events and two hundred charged keys.
  pub record_once-IsBounded :
      (repo repo' : Repo W) (now : ℕ) (p a b : EntityId) (what : Bytes) (points : ℕ) (key : Bytes)
      (o : Option Report)
      → session_agent repo.world p ≡ some a
      → record_once session_agent config revoke_agent fire repo now p what points key
        ≡ ok (o, repo')
      → ((c : EntityId) → IsBounded (load repo.files c))
      → IsBounded (load repo'.files b)
  record_once-IsBounded repo repo' now p a b what points key o agent e h =
      once-IsBounded repo repo' now a b what points key
        (record_once-IsOnce repo repo' now p a what points key o agent e) h
