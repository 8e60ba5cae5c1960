-- ===== src/Fence/Exclusion.antt =====
-- .agents/runtime/behavior-fence.mjs: what a verified execution proves of the task's lease.
use agentic_harness.Base.{
  ℕ, ◌<◌, String, ◌≡◌, refl, sym, ap, subst, ◌∙◌, true, false, not, ◌&&◌, Option, none, some, arith,
  is_truthy, eq_iff, ◌=ₛ◌, Option-cases, inl, inr,
}
use agentic_harness.Host.{Host}
use agentic_harness.Fence.{
  Dates, Fence, FenceResult, checked, refused, iso, validate_fence, validate_active_fence, LeaseRow,
  Identity, Observation, active, held, threw, same_identity, fence_of, observed_as, observe_lease,
  observe_fence, Behaviour, Later, Execution, Receipt, settle, run_under, execute_under_fence,
  receipt_of,
}

-- `new Date(ms).toISOString()` of a date that was parsed parses to the same time.
abbrev pub RoundTrips : Dates → Type 0
RoundTrips dates =
    (s : String) (t : ℕ) → dates.parse s ≡ some t → dates.parse (dates.to_iso t) ≡ some t

-- The row of the task is that of the identity, running, and its lease is over after the time.
abbrev pub Holds : Dates → Identity → Option LeaseRow → ℕ → String → Type 0
Holds dates i row now owner =
    (r : LeaseRow) × (t : ℕ) × (row ≡ some r)
    × (same_identity i r ≡ true)
    × ((r.status =ₛ "running") ≡ true)
    × (r.lease_owner ≡ owner)
    × (is_truthy owner ≡ true)
    × (dates.parse r.lease_expires_at ≡ some t)
    × (now < t)

module _ (host : Host) (dates : Dates) (dates_round_trip : RoundTrips dates) where
  iso-to_iso :
      (t : ℕ) (l : String)
      → dates.parse (dates.to_iso t) ≡ some t
      → iso dates (dates.to_iso t) ≡ some l
      → l ≡ dates.to_iso t
  unfolding iso
  iso-to_iso t l parsed e = ground arith

  validated_lease :
      (f g : Fence)
      → validate_fence dates f ≡ checked g
      → iso dates f.lease_expires_at ≡ some g.lease_expires_at
  unfolding validate_fence
  validated_lease f g e = ground arith

  validated_owner :
      (f g : Fence) → validate_fence dates f ≡ checked g → g.lease_owner ≡ f.lease_owner
  unfolding validate_fence
  validated_owner f g e = ground arith

  active_lease :
      (f g : Fence) (now t : ℕ)
      → validate_active_fence dates f now ≡ checked g
      → (validate_fence dates f ≡ checked g) × (dates.parse g.lease_expires_at ≡ some t → now < t)
  unfolding validate_active_fence
  active_lease f g now t e = elim (Option-cases (dates.parse g.lease_expires_at)) [
    | inl h ↦ ground arith
    | inr h ↦ ground arith
  ]

  observed_checked :
      (o : FenceResult) (f : Fence) (d : String)
      → observed_as host dates o ≡ active f d
      → o ≡ checked f
  observed_checked (refused c) f d e = absurd (cc e)
  observed_checked (checked g) f d e = cc

  lease_active :
      (i : Identity) (row : LeaseRow) (now t : ℕ) (f : Fence) (d : String)
      → dates.parse row.lease_expires_at ≡ some t
      → observed_as host dates (validate_active_fence dates (fence_of host dates i row t now) now)
        ≡ active f d
      → (row.lease_owner ≡ f.lease_owner) × (now < t)
  lease_active i row now t f d parsed e =
      let back = dates_round_trip row.lease_expires_at t parsed in
      let g = fence_of host dates i row t now in
      let (valid, later) = active_lease g f now t (observed_checked _ f d e) in
      let same = iso-to_iso t f.lease_expires_at back (validated_lease g f valid) in
      (sym (validated_owner g f valid), later (ap dates.parse same ∙ back))

  threw_active :
      (i : Identity) (row : LeaseRow) (now : ℕ) (f : Fence) (d : String)
      → dates.parse row.lease_expires_at ≡ none
      → observe_lease host dates i row now (dates.parse row.lease_expires_at) ≡ active f d
      → ⊥
  unfolding observe_lease
  threw_active i row now f d invalid e = ground arith

  lease_observed :
      (i : Identity) (row : LeaseRow) (now t : ℕ) (f : Fence) (d : String)
      → dates.parse row.lease_expires_at ≡ some t
      → observe_lease host dates i row now (dates.parse row.lease_expires_at) ≡ active f d
      → observed_as host dates (validate_active_fence dates (fence_of host dates i row t now) now)
        ≡ active f d
  unfolding observe_lease
  lease_observed i row now t f d parsed e = ground arith

  row_active :
      (i : Identity) (wanted : String) (row : LeaseRow) (now : ℕ) (f : Fence) (d : String)
      → observe_fence host dates (some row) i wanted now ≡ active f d
      → (same_identity i row ≡ true)
        × ((row.status =ₛ "running") ≡ true)
        × (is_truthy row.lease_owner ≡ true)
        × ((is_truthy wanted && not (row.lease_owner =ₛ wanted)) ≡ false)
        × (observe_lease host dates i row now (dates.parse row.lease_expires_at) ≡ active f d)
  unfolding observe_fence
  row_active i wanted row now f d e = ground arith

  none_active :
      (i : Identity) (wanted : String) (now : ℕ) (f : Fence) (d : String)
      → observe_fence host dates none i wanted now ≡ active f d
      → ⊥
  unfolding observe_fence
  none_active i wanted now f d e = ground arith

  -- An observation is active only of a row with the identity that is asked for, which is running,
  -- whose lease is over after the time of the observation; the fence names the owner of the lease,
  -- which is the owner that is asked for where one is.
  pub observe_fence-Holds :
      (row : Option LeaseRow) (i : Identity) (wanted : String) (now : ℕ) (f : Fence) (d : String)
      → observe_fence host dates row i wanted now ≡ active f d
      → Holds dates i row now f.lease_owner
        × ((is_truthy wanted && not (f.lease_owner =ₛ wanted)) ≡ false)
  observe_fence-Holds none i wanted now f d e = absurd (none_active i wanted now f d e)
  observe_fence-Holds (some row) i wanted now f d e =
      let (same, running, named, owner, lease) = row_active i wanted row now f d e in
      elim (Option-cases (dates.parse row.lease_expires_at)) [
        | inl invalid ↦ absurd (threw_active i row now f d invalid lease)
        | inr (t, parsed) ↦
            let (owned, later) =
              lease_active i row now t f d parsed (lease_observed i row now t f d parsed lease) in
            (
              (
                row,
                t,
                refl,
                same,
                running,
                owned,
                subst (λ o. is_truthy o ≡ true) owned named,
                parsed,
                later,
              ),
              subst (λ o. (is_truthy wanted && not (o =ₛ wanted)) ≡ false) owned owner,
            )
      ]

  settled :
      (digest : String) (r : Receipt) (o : Observation) (x : Execution)
      → settle digest r o ≡ some x
      → x.fence_verified ≡ true
      → (f : Fence) × (o ≡ active f digest)
  settled digest r threw x e v = absurd (cc e)
  settled digest r (held c) x e v = ground arith
  settled digest r (active f d) x e v = (f, ap (active f) (ground (arith, eq_iff d digest)))

  same_owner : (a b : String) → is_truthy a ≡ true → (is_truthy a && not (b =ₛ a)) ≡ false → b ≡ a
  same_owner a b truthy same = ground (arith, eq_iff b a)

  exclusive_run :
      (i : Identity) (behaviour : Fence → Behaviour) (before after : Later) (x : Execution)
      (o : Observation)
      → observe_fence host dates before.row i i.lease_owner before.now ≡ o
      → run_under host dates i behaviour after o ≡ some x
      → x.fence_verified ≡ true
      → (owner : String) × Holds dates i before.row before.now owner
        × Holds dates i after.row after.now owner
  unfolding run_under
  exclusive_run i behaviour before after x threw seen e verified = absurd (cc e)
  exclusive_run i behaviour before after x (held c) seen e verified = ground arith
  exclusive_run i behaviour before after x (active f d) seen e verified =
      let (g, again) = settled d (receipt_of (behaviour f)) _ x e verified in
      let (first, _) = observe_fence-Holds before.row i i.lease_owner before.now f d seen in
      let (second, wanted) = observe_fence-Holds after.row i f.lease_owner after.now g d again in
      let same = same_owner f.lease_owner g.lease_owner first.6 wanted in
      (f.lease_owner, first, subst (Holds dates i after.row after.now) same second)

  -- An execution whose fence is verified held one lease on both sides: before and after the
  -- behaviour the store had a running row of the task with the given run, attempt, generation and
  -- fencing token, leased to the same owner beyond the time of the observation.
  pub execute_under_fence-exclusive :
      (i : Identity) (behaviour : Option (Fence → Behaviour)) (before after : Later) (x : Execution)
      → execute_under_fence host dates i behaviour before after ≡ some x
      → x.fence_verified ≡ true
      → (owner : String) × Holds dates i before.row before.now owner
        × Holds dates i after.row after.now owner
  unfolding execute_under_fence
  execute_under_fence-exclusive i none before after x e verified = ground arith
  execute_under_fence-exclusive i (some behaviour) before after x e verified =
      exclusive_run i behaviour before after x
        (observe_fence host dates before.row i i.lease_owner before.now) refl e verified

  -- What an execution gives that has no fence at its start.
  abbrev pub IsInert :
      Identity → (Fence → Behaviour) → (Fence → Behaviour) → Later → Later → Later → Type 0
  IsInert i behaviour other before after later =
      (execute_under_fence host dates i (some behaviour) before after
        ≡ execute_under_fence host dates i (some other) before later)
      × ((x : Execution)
          → execute_under_fence host dates i (some behaviour) before after ≡ some x
          → (x.executed ≡ false) × (x.fence_verified ≡ false))

  IsInert-run :
      (i : Identity) (behaviour other : Fence → Behaviour) (before after later : Later)
      (o : Observation)
      → observe_fence host dates before.row i i.lease_owner before.now ≡ o
      → ((f : Fence) (d : String) → o ≡ active f d → ⊥)
      → IsInert i behaviour other before after later
  unfolding execute_under_fence run_under
  IsInert-run i behaviour other before after later (active f d) seen none_active =
      absurd (none_active f d refl)
  IsInert-run i behaviour other before after later (held c) seen none_active =
      rw seen (refl, λ x e. (ground arith, ground arith))
  IsInert-run i behaviour other before after later threw seen none_active =
      rw seen (refl, λ x e. absurd (cc e))

  -- Where the store has no running row of the task with the given identity whose lease is held by an
  -- owner, the one that is asked for where one is, beyond the time of the first observation, the
  -- behaviour has no influence: the result is the same for every behaviour and every later state of
  -- the store, and a result that is returned says that nothing was executed or verified.
  pub execute_under_fence_unleased :
      (i : Identity) (behaviour other : Fence → Behaviour) (before after later : Later)
      → ((owner : String)
          → Holds dates i before.row before.now owner
          → (is_truthy i.lease_owner && not (owner =ₛ i.lease_owner)) ≡ false
          → ⊥)
      → IsInert i behaviour other before after later
  execute_under_fence_unleased i behaviour other before after later unleased =
      IsInert-run i behaviour other before after later
        (observe_fence host dates before.row i i.lease_owner before.now) refl
        (λ f d seen.
          let (holds, wanted) =
            observe_fence-Holds before.row i i.lease_owner before.now f d seen in
          unleased f.lease_owner holds wanted)
