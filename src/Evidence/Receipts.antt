-- ===== src/Evidence/Receipts.antt =====
-- .agents/runtime/validation-evidence.mjs: what the receipts of the runtime replace, and which commands
-- they satisfy.
use agentic_harness.Base.{
  elem-append, String, ◌≡◌, refl, ap, sym, ◌∙◌, Bool, true, false, not, ◌&&◌, List, [], ◌∷◌, ◌++◌,
  map, keep, elem, unique, is_blank, arith, eq_iff, eq_refl, ◌=ₛ◌, if◌then◌else◌, Bool-cases, inl,
  inr,
}
use mathlib.Core.List.{append-nil}
use agentic_harness.Completion.{Validation, TaskBrief, Handoff}
use agentic_harness.Evidence.{
  RunResult, has_passed, is_claim, is_passed_receipt, receipt, receipts_for, synthesize,
  missing_commands,
}

keep-append {ℓ} :
    {A : Type ℓ} (p : A → Bool) (xs ys : List A) → keep p (xs ++ ys) ≡ keep p xs ++ keep p ys
unfolding keep
keep-append p [] ys = refl
keep-append p (x ∷ xs) ys = elim (Bool-cases (p x)) [
  | inl kept ↦ rw kept (ap (λ r. x ∷ r) (keep-append p xs ys))
  | inr dropped ↦ rw dropped (keep-append p xs ys)
]

-- What a filter leaves, its opposite drops; and what it left it leaves again.
keep-dropped {ℓ} :
    {A : Type ℓ} (p : A → Bool) (xs : List A) → keep p (keep (λ x. not (p x)) xs) ≡ []
unfolding keep
keep-dropped p [] = refl
keep-dropped p (x ∷ xs) = elim (Bool-cases (p x)) [
  | inl found ↦ rw found (keep-dropped p xs)
  | inr other ↦ rw other (rw other (keep-dropped p xs))
]

keep-keep {ℓ} : {A : Type ℓ} (p : A → Bool) (xs : List A) → keep p (keep p xs) ≡ keep p xs
unfolding keep
keep-keep p [] = refl
keep-keep p (x ∷ xs) = elim (Bool-cases (p x)) [
  | inl kept ↦ rw kept (rw kept (ap (λ r. x ∷ r) (keep-keep p xs)))
  | inr dropped ↦ rw dropped (keep-keep p xs)
]

keep-congr :
    (p q : String → Bool) (xs : List String)
    → ((x : String) → elem x xs ≡ true → p x ≡ q x)
    → keep p xs ≡ keep q xs
unfolding keep
keep-congr p q [] h = refl
keep-congr p q (x ∷ xs) h =
    let rest = keep-congr p q xs (λ y there. h y (ground (arith, there))) in
    let here = h x (ground (arith, eq_refl x)) in
    elim (Bool-cases (q x)) [
      | inl kept ↦ rw (here, kept) (ap (λ r. x ∷ r) rest)
      | inr dropped ↦ rw (here, dropped) rest
    ]

map-append {ℓ κ} :
    {A : Type ℓ} {B : Type κ} (f : A → B) (xs ys : List A) → map f (xs ++ ys) ≡ map f xs ++ map f ys
map-append f [] ys = refl
map-append f (x ∷ xs) ys = ap (λ r. f x ∷ r) (map-append f xs ys)

-- The commands that a passed receipt proves.
abbrev proven_in : List Validation → List String
proven_in vs = map (λ v. v.command) (keep is_passed_receipt vs)

-- The entries of an agent that are left prove no required command.
unclaimed-proven_in :
    (commands : List String) (c : String) (vs : List Validation)
    → elem c commands ≡ true
    → elem c (proven_in (keep (λ v. not (is_claim commands v)) vs)) ≡ false
unfolding keep is_claim
unclaimed-proven_in commands c [] h = refl
unclaimed-proven_in commands c (v ∷ vs) h =
    let rest = unclaimed-proven_in commands c vs h in
    elim (Bool-cases (is_claim commands v)) [
      | inl claimed ↦ rw claimed rest
      | inr other ↦ elim (Bool-cases (is_passed_receipt v)) [
        | inr unproven ↦ rw (other, unproven) rest
        | inl passed ↦ elim (Bool-cases (c =ₛ v.command)) [
          | inl same ↦ absurd (ground (arith, rw ((eq_iff c v.command).0 same) at h, other, passed))
          | inr apart ↦ rw (other, passed) (ground (arith, apart, rest))
        ]
      ]
    ]

module _ (runner : String → RunResult) where
  -- The run of the command has passed, and its evidence is not blank.
  abbrev pub is_proven : String → Bool
  is_proven c = has_passed (runner c) && not (is_blank (runner c).evidence)

  receipt-is_passed_receipt : (c : String) → is_passed_receipt (receipt runner c) ≡ is_proven c
  unfolding receipt
  receipt-is_passed_receipt c = decided c (has_passed (runner c)) (runner c).evidence
    where
      decided :
          (c : String) (b : Bool) (evidence : String)
          → is_passed_receipt (record {
            command = c;
            phase = "final";
            blocking = true;
            authority = "runtime";
            result = if b then "passed" else "failed";
            evidence = evidence;
          })
            ≡ (b && not (is_blank evidence))
      decided c true evidence = refl
      decided c false evidence = refl

  receipts-proven_in :
      (c : String) (commands : List String)
      → elem c (proven_in (map (receipt runner) commands)) ≡ (elem c commands && is_proven c)
  unfolding keep receipt
  receipts-proven_in c [] = refl
  receipts-proven_in c (d ∷ commands) =
      let rest = receipts-proven_in c commands in
      elim (Bool-cases (is_passed_receipt (receipt runner d))) [
        | inl passed ↦
            rw passed (ground (arith, rest, eq_iff c d, sym (receipt-is_passed_receipt d) ∙ passed))
        | inr unproven ↦
            rw unproven
              (ground (arith, rest, eq_iff c d, sym (receipt-is_passed_receipt d) ∙ unproven))
      ]

  claims_of_receipts :
      (required commands : List String)
      → ((c : String) → elem c commands ≡ true → elem c required ≡ true)
      → (keep (is_claim required) (map (receipt runner) commands) ≡ map (receipt runner) commands)
        × (keep (λ v. not (is_claim required v)) (map (receipt runner) commands) ≡ [])
  unfolding keep is_claim receipt
  claims_of_receipts required [] h = (refl, refl)
  claims_of_receipts required (c ∷ commands) h =
      let (kept, dropped) =
        claims_of_receipts required commands (λ d there. h d (ground (arith, there))) in
      let here = h c (ground (arith, eq_refl c)) in
      (rw here (ap (λ r. receipt runner c ∷ r) kept), rw here dropped)

  -- A handoff whose claims about the commands are replaced by what the runtime ran: each command has
  -- one final blocking entry, the receipt of its run, and the other entries are as before.
  abbrev pub IsReceipted : List String → List Validation → List Validation → Type 0
  IsReceipted commands before after =
      (keep (is_claim commands) after ≡ map (receipt runner) commands)
      × (keep (λ v. not (is_claim commands v)) after ≡ keep (λ v. not (is_claim commands v)) before)

  receipts_for-append :
      (commands : List String) (vs : List Validation)
      → receipts_for runner commands vs
        ≡ keep (λ v. not (is_claim commands v)) vs ++ map (receipt runner) commands
  unfolding is_claim keep
  receipts_for-append [] vs = sym (append-nil _ ∙ all_kept vs)
    where
      all_kept : (vs : List Validation) → keep (λ v. not (is_claim [] v)) vs ≡ vs
      all_kept [] = refl
      all_kept (v ∷ vs) = ap (λ r. v ∷ r) (all_kept vs)
  receipts_for-append (c ∷ commands) vs = refl

  receipts_for-IsReceipted :
      (commands : List String) (vs : List Validation)
      → IsReceipted commands vs (receipts_for runner commands vs)
  receipts_for-IsReceipted commands vs =
      let left = keep (λ v. not (is_claim commands v)) vs in
      let (own, others) = claims_of_receipts commands commands (λ c there. there) in
      rw (receipts_for-append commands vs) (
        keep-append (is_claim commands) left _ ∙ rw (keep-dropped (is_claim commands) vs) own,
        keep-append (λ v. not (is_claim commands v)) left _
            ∙ rw others (append-nil _ ∙ keep-keep (λ v. not (is_claim commands v)) vs),
      )

  proven_in-receipts_for :
      (commands : List String) (vs : List Validation) (c : String)
      → elem c commands ≡ true
      → elem c (proven_in (receipts_for runner commands vs)) ≡ is_proven c
  proven_in-receipts_for commands vs c there =
      let left = keep (λ v. not (is_claim commands v)) vs in
      let split : proven_in (left ++ map (receipt runner) commands)
          ≡ proven_in left ++ proven_in (map (receipt runner) commands) =
        ap (map (λ v. v.command))
          (keep-append is_passed_receipt left (map (receipt runner) commands))
        ∙ map-append (λ v. v.command) (keep is_passed_receipt left) _ in
      rw (receipts_for-append commands vs, split)
        (ground (
          arith,
          there,
          elem-append c (proven_in left) (proven_in (map (receipt runner) commands)),
          unclaimed-proven_in commands c vs there,
          receipts-proven_in c commands,
        ))

  -- In a complete handoff each required command gets one final blocking entry, the receipt of the
  -- runtime's own run, in the order of the commands; whatever the agent claimed about these commands
  -- is gone, and its other entries stay. The commands that are then missing are exactly those whose
  -- run did not pass or gave blank evidence.
  pub synthesize-IsReceipted :
      (brief : TaskBrief) (h : Handoff)
      → (h.status =ₛ "complete") ≡ true
      → IsReceipted (unique brief.validation) h.validation (synthesize runner brief h)
        × (missing_commands brief (record h { validation = synthesize runner brief h })
            ≡ keep (λ c. not (is_proven c)) (unique brief.validation))
  unfolding synthesize missing_commands
  synthesize-IsReceipted brief h complete =
      let commands = unique brief.validation in
      rw complete (
        receipts_for-IsReceipted commands h.validation,
        keep-congr _ _ commands
            (λ c there. ap not (proven_in-receipts_for commands h.validation c there)),
      )
