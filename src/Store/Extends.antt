-- ===== src/Store/Extends.antt =====
-- How the store may change: the log grows at its end with the next numbers, and a run that has
-- ended keeps its status and the time of its end.
use agentic_harness.Base.{
  ℕ, suc, ◌+◌, String, ◌≡◌, refl, sym, ap, ◌∙◌, true, none, some, List, [], ◌∷◌, ◌++◌, arith, Dict,
  length, length-append, lookup, put, lookup-put, eq_iff, ◌=ₛ◌, Bool-cases, inl, inr,
}
use mathlib.Core.List.{append-nil, append_assoc}
use native.Mathlib.Nat.{add-zero}
use agentic_harness.Rows.{Run, Event}
use agentic_harness.RunInvariants.{is_terminal_run_status}
use agentic_harness.Store.Monad.{Store}

-- The numbers after `n`, in order.
abbrev pub Numbered : ℕ → List Event → Type 0
Numbered n [] = Unit
Numbered n (e ∷ es) = (e.event_sequence ≡ n + 1) × Numbered (n + 1) es

-- The row of a run that has ended is there, with the same status and time.
abbrev pub StillEnded : Run → Dict Run → String → Type 0
StillEnded run runs id =
    (after : Run) × (lookup id runs ≡ some after)
    × (after.status ≡ run.status)
    × (after.completed_at ≡ run.completed_at)

abbrev pub Frozen : Dict Run → Dict Run → Type 0
Frozen before after =
    (id : String) (run : Run)
    → lookup id before ≡ some run
    → is_terminal_run_status run.status ≡ true
    → StillEnded run after id

pub record Extends (s t : Store) : Type 0 where
  pub added : List Event
  pub log : t.events ≡ s.events ++ added
  pub numbered : Numbered s.event_sequence added
  pub counted : t.event_sequence ≡ s.event_sequence + length added
  pub frozen : Frozen s.runs t.runs

pub Frozen-refl : (runs : Dict Run) → Frozen runs runs
Frozen-refl runs id run h ended = (run, h, refl, refl)

pub Frozen-of_eq : {a b : Dict Run} → b ≡ a → Frozen a b
Frozen-of_eq e id run h ended = (run, cc, refl, refl)

Frozen-trans : (a b c : Dict Run) → Frozen a b → Frozen b c → Frozen a c
Frozen-trans a b c f g id run h ended =
    let (r₁, l₁, st₁, at₁) = f id run h ended in
    let (r₂, l₂, st₂, at₂) = g id r₁ l₁ (rw st₁ ended) in (r₂, l₂, st₂ ∙ st₁, at₂ ∙ at₁)

pub Numbered-append :
    (n : ℕ) (xs ys : List Event)
    → Numbered n xs
    → Numbered (n + length xs) ys
    → Numbered n (xs ++ ys)
Numbered-append n [] ys h k = rw add-zero at k
Numbered-append n (x ∷ xs) ys h k =
    (h.0, Numbered-append (n + 1) xs ys h.1 (rw (sym_lemma n (length xs)) at k))
  where
    sym_lemma : (a b : ℕ) → a + suc b ≡ (a + 1) + b
    sym_lemma a b = omega arith

pub Extends-refl : (s : Store) → Extends s s
Extends-refl s = record {
  added = [];
  log = sym (append-nil s.events);
  numbered = tt;
  counted = sym (add-zero s.event_sequence);
  frozen = Frozen-refl s.runs;
}

pub Extends-trans : {a b c : Store} → Extends a b → Extends b c → Extends a c
Extends-trans {a} {b} {c} p q = record {
  added = p.added ++ q.added;
  log = q.log ∙ ap (λ l. l ++ q.added) p.log ∙ append_assoc a.events p.added q.added;
  numbered =
      Numbered-append a.event_sequence p.added q.added p.numbered (rw p.counted at q.numbered);
  counted = omega (arith, p.counted, q.counted, length-append p.added q.added);
  frozen = Frozen-trans a.runs b.runs c.runs p.frozen q.frozen;
}

-- A change of neither the log nor the runs.
pub Extends-of_same :
    {s t : Store}
    → t.events ≡ s.events
    → t.event_sequence ≡ s.event_sequence
    → Frozen s.runs t.runs
    → Extends s t
Extends-of_same {s} {t} e n f = record {
  added = [];
  log = e ∙ sym (append-nil s.events);
  numbered = tt;
  counted = n ∙ sym (add-zero s.event_sequence);
  frozen = f;
}

-- A write of one run that keeps its status and time if it had ended.
pub Frozen-put :
    (id : String) (current next : Run) (runs : Dict Run)
    → lookup id runs ≡ some current
    → (is_terminal_run_status current.status ≡ true
        → (next.status ≡ current.status) × (next.completed_at ≡ current.completed_at))
    → Frozen runs (put id next runs)
Frozen-put id current next runs there keep j run h ended = elim (Bool-cases (id =ₛ j)) [
  | inl same ↦
      let found : some run ≡ some current = cc ((eq_iff id j).0 same) in
      let was : run ≡ current = cc found in
      let kept = keep (rw was at ended) in
      (next, rw (lookup-put, same), rw was kept.0, rw was kept.1)
  | inr other ↦ (run, rw (lookup-put, other) h, refl, refl)
]

-- A write of a run that is not there yet.
pub Frozen-put_new :
    (id : String) (next : Run) (runs : Dict Run)
    → lookup id runs ≡ none
    → Frozen runs (put id next runs)
Frozen-put_new id next runs absent j run h ended = elim (Bool-cases (id =ₛ j)) [
  | inl same ↦ absurd (cc ((eq_iff id j).0 same))
  | inr other ↦ (run, rw (lookup-put, other) h, refl, refl)
]
