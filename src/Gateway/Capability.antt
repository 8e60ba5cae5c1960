-- ===== src/Gateway/Capability.antt =====
-- apps/docker-gateway/fence-store.mjs: when a capability is verified.
use agentic_harness.Base.{
  ℕ, ◌<◌, String, ◌≡◌, refl, sym, ap, subst, ◌↔◌, true, false, Option, none, some, arith, is_truthy,
  eq_iff, ◌=ₛ◌, eq_refl,
}
use agentic_harness.Gateway.{
  Crypto, RequestFence, Request, AuthorityRow, QueryResult, found, unavailable, no_row, verified,
  lease_over, capability_proof, verify_row, verify_found, verify_fence, verify_capability,
  matches_fence, has_fingerprint,
}

found_same : (a b : AuthorityRow) → found b ≡ found a → a ≡ b
found_same a b e = cc

some_same {ℓ} : {A : Type ℓ} (a b : A) → some a ≡ some b → a ≡ b
some_same a b e = cc

module _ (crypto : Crypto) (secret : String) where
  -- What a verified capability needs of the row.
  abbrev pub Authorizes : AuthorityRow → String → RequestFence → ℕ → Type 0
  Authorizes row capability f now =
      (row.run_status ≡ "running")
      × (row.status ≡ "running")
      × (row.attempt ≡ f.attempt)
      × (row.dispatch_generation ≡ f.dispatch_generation)
      × (row.fencing_token ≡ f.fencing_token)
      × (row.lease_owner ≡ f.lease_owner)
      × ((t : ℕ) × (crypto.parse row.lease_expires_at ≡ some t) × (now < t))
      × (row.fingerprint ≡ some (capability_proof crypto secret capability f))

  matches_iff :
      (row : AuthorityRow) (f : RequestFence)
      → (matches_fence row f ≡ true)
        ↔ (row.attempt ≡ f.attempt)
          × (row.dispatch_generation ≡ f.dispatch_generation)
          × (row.fencing_token ≡ f.fencing_token)
          × (row.lease_owner ≡ f.lease_owner)
  matches_iff row f = (
    λ h. (
      ground arith,
      ground arith,
      ground arith,
      ground (arith, eq_iff row.lease_owner f.lease_owner),
    ),
    λ (a, b, c, d). rw (a, b, c, d) (ground (arith, eq_refl f.lease_owner)),
  )

  lease_iff :
      (o : Option ℕ) (now : ℕ) → (lease_over o now ≡ false) ↔ ((t : ℕ) × (o ≡ some t) × (now < t))
  lease_iff none now = (λ h. absurd (cc h), λ h. absurd (cc h.1))
  lease_iff (some t) now = (λ h. (t, refl, ground arith), λ h. ground arith)

  fingerprint_iff :
      (o : Option String) (proof : String) → (has_fingerprint o proof ≡ true) ↔ (o ≡ some proof)
  fingerprint_iff none proof = (λ h. absurd (cc h), λ h. absurd (cc h))
  fingerprint_iff (some p) proof = (
    λ h. ap some (ground (arith, eq_iff p proof)),
    λ h. rw (some_same p proof h) (ground (arith, eq_refl proof)),
  )

  row_flags :
      (row : AuthorityRow) (capability : String) (f : RequestFence) (now : ℕ)
      → (verify_row crypto secret capability f now row ≡ verified)
        ↔ ((row.run_status =ₛ "running") ≡ true)
          × ((row.status =ₛ "running") ≡ true)
          × (matches_fence row f ≡ true)
          × (lease_over (crypto.parse row.lease_expires_at) now ≡ false)
          × (has_fingerprint row.fingerprint (capability_proof crypto secret capability f) ≡ true)
  unfolding verify_row
  row_flags row capability f now = (λ h. ground arith, λ h. ground arith)

  row_iff :
      (row : AuthorityRow) (capability : String) (f : RequestFence) (now : ℕ)
      → (verify_row crypto secret capability f now row ≡ verified) ↔ Authorizes row capability f now
  row_iff row capability f now =
      let flags = row_flags row capability f now in
      let same = matches_iff row f in
      let lease = lease_iff (crypto.parse row.lease_expires_at) now in
      let proof = fingerprint_iff row.fingerprint (capability_proof crypto secret capability f) in
      (
        λ h.
            let (run, task, m, l, p) = flags.0 h in
            let (a, g, t, o) = same.0 m in
            (
              ground (arith, eq_iff row.run_status "running"),
              ground (arith, eq_iff row.status "running"),
              a,
              g,
              t,
              o,
              lease.0 l,
              proof.0 p,
            ),
        λ (run, task, a, g, t, o, l, p). flags.1 (
          rw run (eq_refl "running"),
          rw task (eq_refl "running"),
          same.1 (a, g, t, o),
          lease.1 l,
          proof.1 p,
        ),
      )

  found_iff :
      (capability : String) (f : RequestFence) (now : ℕ) (q : QueryResult)
      → (verify_found crypto secret capability f now q ≡ verified)
        ↔ ((row : AuthorityRow) × (q ≡ found row) × Authorizes row capability f now)
  found_iff capability f now unavailable = (λ h. absurd (cc h), λ h. absurd (cc h.1))
  found_iff capability f now no_row = (λ h. absurd (cc h), λ h. absurd (cc h.1))
  found_iff capability f now (found row) =
      let here = row_iff row capability f now in
      (
        λ h. (row, refl, here.0 h),
        λ (r, e, authorized).
            here.1 (subst (λ x. Authorizes x capability f now) (found_same r row e) authorized),
      )

  asked :
      (capability : String) (f : RequestFence) (now : ℕ) (query : RequestFence → QueryResult)
      → verify_fence crypto secret capability (some f) now query ≡ verified
      → (is_truthy capability ≡ true)
        × (verify_found crypto secret capability f now (query f) ≡ verified)
  asked capability f now query h = ground arith

  verify_iff :
      (fence : Option RequestFence) (capability : String) (now : ℕ)
      (query : RequestFence → QueryResult)
      → (verify_fence crypto secret capability fence now query ≡ verified) ↔ (
          (f : RequestFence) × (row : AuthorityRow) × (fence ≡ some f)
          × (is_truthy capability ≡ true)
          × (query f ≡ found row)
          × Authorizes row capability f now)
  verify_iff none capability now query = (λ h. absurd (cc h), λ h. absurd (cc h.2))
  verify_iff (some f) capability now query =
      let here = found_iff capability f now (query f) in
      (
        λ h.
            let named = asked capability f now query h in
            let (row, e, authorized) = here.0 named.1 in (f, row, refl, named.0, e, authorized),
        λ (g, row, e, named, given, authorized).
            let same = some_same f g e in
            rw named (
              here.1 (
                row,
                rw same given,
                subst (λ x. Authorizes row capability x now) (sym same) authorized,
              )),
      )

  -- A capability is verified exactly when the request has a fence and a capability and the store
  -- gives a row that authorizes it: the run and the task are running, the attempt, the generation,
  -- the fencing token and the owner are those of the fence, the lease is over after the current time,
  -- and the checkpoint's fingerprint is the proof of the capability under the secret.
  pub verify_capability_iff :
      (request : Request) (now : ℕ) (query : RequestFence → QueryResult)
      → (verify_capability crypto secret request now query ≡ verified) ↔ (
          (f : RequestFence) × (row : AuthorityRow) × (request.execution_fence ≡ some f)
          × (is_truthy request.capability ≡ true)
          × (query f ≡ found row)
          × Authorizes row request.capability f now)
  unfolding verify_capability
  verify_capability_iff request now query =
      verify_iff request.execution_fence request.capability now query
