-- ===== src/Execution/Admission/Once.antt =====
-- An intent is acted on once.
use mathlib.Core.Path.{subst}
use glitch_topstep.Execution.Store.Tables.{
  BodyHash, Intent, Store, Registration, claimed, legacy, hashed,
}
use glitch_topstep.Execution.Store.Registering.{rehash, compare_hash, find_intent, register_intent}
use glitch_topstep.Execution.Store.Idempotence.{find_intent-last, register_new}
use glitch_topstep.Execution.Admission.{
  WireIntent, AdmissionDeps, AdmissionState, EarlyResult, handoff, proceed, after_registration,
  evaluate_intent_admission_early,
}
use glitch_topstep.Prelude.{
  ◌==◌, if◌then◌else◌, ==_iff, Bool-cases, and_left, and_right, Option-cases, is_some, ℕ, ◌+◌, ◌≤◌,
  ◌≡◌, refl, sym, ap, ◌∙◌, ◌⊎◌, inl, inr, Bool, true, false, ◌&&◌, Option, none, some, List, [],
  ◌∷◌, ◌++◌, arith,
}

-- Whether the coordinator goes on to act.
abbrev pub is_acted : EarlyResult → Bool
is_acted (handoff _ _) = true
is_acted (proceed _) = true
is_acted _ = false

-- Whether the store knows the intent.
abbrev pub is_known : ℕ → Store → Bool
is_known j s = is_some (find_intent j s.intents)

rehash_known :
    (j i : ℕ) (h : BodyHash) (xs : List Intent)
    → is_some (find_intent j (rehash i h xs)) ≡ is_some (find_intent j xs)
unfolding rehash find_intent
rehash_known j i h [] = refl
rehash_known j i h (x ∷ xs) = ground (arith, rehash_known j i h xs)

append_known :
    (j : ℕ) (xs ys : List Intent)
    → is_some (find_intent j xs) ≡ true
    → is_some (find_intent j (xs ++ ys)) ≡ true
unfolding find_intent
append_known j [] ys h = cc h
append_known j (x ∷ xs) ys h = ground (arith, append_known j xs ys)

compare_hash_known :
    (j i hash : ℕ) (b : BodyHash) (s : Store)
    → is_known j s ≡ true
    → is_known j (compare_hash i hash b s).0 ≡ true
unfolding compare_hash
compare_hash_known j i hash legacy s h = rehash_known j i (hashed hash) s.intents ∙ h
compare_hash_known j i hash (hashed stored) s h = h

-- The intent was unknown and is added, or its row is compared.
pub register-cases :
    (x : Intent) (hash : ℕ) (s : Store)
    → ((find_intent x.intent_id s.intents ≡ none)
        × (register_intent x hash s ≡ (
          record s { intents = s.intents ++ record x { body_hash = hashed hash } ∷ [] },
          claimed,
        )))
      ⊎ ((row : Intent) × (find_intent x.intent_id s.intents ≡ some row)
          × (register_intent x hash s ≡ compare_hash x.intent_id hash row.body_hash s))
unfolding register_intent
register-cases x hash s = elim (Option-cases (find_intent x.intent_id s.intents)) [
  | inl e ↦ inl (e, register_new x hash s e)
  | inr (row, e) ↦ inr (row, e, rw (register_intent, e) refl)
]

register_keeps :
    (j : ℕ) (x : Intent) (hash : ℕ) (s : Store)
    → is_known j s ≡ true
    → is_known j (register_intent x hash s).0 ≡ true
register_keeps j x hash s h = elim (register-cases x hash s) [
  | inl (e, r) ↦ rw r (append_known j s.intents _ h)
  | inr (row, e, r) ↦ rw r (compare_hash_known j x.intent_id hash row.body_hash s h)
]

after-store :
    (i : WireIntent) (d : AdmissionDeps) (s : AdmissionState) (store : Store) (r : Registration)
    → (after_registration i d s (store, r)).0.store ≡ store
unfolding after_registration
after-store i d s store r = ground arith

-- What a store knows it knows after the next intent too.
admission_keeps :
    (j : ℕ) (o : Option WireIntent) (d : AdmissionDeps) (s : AdmissionState)
    → is_known j s.store ≡ true
    → is_known j (evaluate_intent_admission_early o d s).0.store ≡ true
unfolding evaluate_intent_admission_early
admission_keeps j none d s h = h
admission_keeps j (some i) d s h =
    let (store, r) = register_intent i.row i.hash s.store in
    rw (after-store i d s store r) (register_keeps j i.row i.hash s.store h)

pub compare_hash-unclaimed :
    (i : WireIntent) (d : AdmissionDeps) (s : AdmissionState) (b : BodyHash)
    → is_acted (after_registration i d s (compare_hash i.row.intent_id i.hash b s.store)).1 ≡ false
unfolding after_registration compare_hash
compare_hash-unclaimed i d s legacy = refl
compare_hash-unclaimed i d s (hashed stored) = elim (Bool-cases (stored == i.hash)) [
  | inl e ↦ rw e refl
  | inr e ↦ rw e refl
]

pub evaluate-registered :
    (i : WireIntent) (d : AdmissionDeps) (s : AdmissionState) (p : Store × Registration)
    → register_intent i.row i.hash s.store ≡ p
    → evaluate_intent_admission_early (some i) d s ≡ after_registration i d s p
unfolding evaluate_intent_admission_early
evaluate-registered i d s p e = ap (after_registration i d s) e

-- Only an intent that the store did not know is acted on, and the store knows it then.
acted_new :
    (i : WireIntent) (d : AdmissionDeps) (s : AdmissionState)
    → is_acted (evaluate_intent_admission_early (some i) d s).1 ≡ true
    → (is_known i.row.intent_id s.store ≡ false)
      × (is_known i.row.intent_id (evaluate_intent_admission_early (some i) d s).0.store ≡ true)
acted_new i d s h = elim (register-cases i.row i.hash s.store) [
  | inl (e, r) ↦
      let row = record i.row { body_hash = hashed i.hash } in
      (
        ap is_some e,
        rw (evaluate-registered i d s _ r, after-store i d s _ claimed)
            (ap is_some (find_intent-last i.row.intent_id s.store.intents row e refl)),
      )
  | inr (row, e, r) ↦ cc (
      sym h
      ∙ ap (λ (x : AdmissionState × EarlyResult). is_acted x.1) (evaluate-registered i d s _ r)
      ∙ compare_hash-unclaimed i d s row.body_hash)
]

-- Whether the intent has this id.
abbrev pub is_of : ℕ → Option WireIntent → Bool
is_of j none = false
is_of j (some i) = i.row.intent_id == j

-- How often the coordinator goes on to act on an intent, while intents arrive one after another.
unfoldable pub acted_times : ℕ → AdmissionState → List (Option WireIntent × AdmissionDeps) → ℕ
unfolding evaluate_intent_admission_early
acted_times j s [] = 0
acted_times j s ((o, d) ∷ arrivals) =
    let r = evaluate_intent_admission_early o d s in
    (if is_of j o && is_acted r.1 then 1 else 0) + acted_times j r.0 arrivals

acted_for :
    (j : ℕ) (o : Option WireIntent) (d : AdmissionDeps) (s : AdmissionState)
    → (is_of j o && is_acted (evaluate_intent_admission_early o d s).1) ≡ true
    → (is_known j s.store ≡ false)
      × (is_known j (evaluate_intent_admission_early o d s).0.store ≡ true)
acted_for j none d s h = cc h
acted_for j (some i) d s h =
    subst
      (λ k.
        (is_known k s.store ≡ false)
        × (is_known k (evaluate_intent_admission_early (some i) d s).0.store ≡ true))
      ((==_iff i.row.intent_id j).0 (and_left _ _ h)) (acted_new i d s (and_right _ _ h))

known-idle :
    (j : ℕ) (o : Option WireIntent) (d : AdmissionDeps) (s : AdmissionState)
    → is_known j s.store ≡ true
    → (is_of j o && is_acted (evaluate_intent_admission_early o d s).1) ≡ false
known-idle j o d s h =
    elim (Bool-cases (is_of j o && is_acted (evaluate_intent_admission_early o d s).1)) [
      | inl e ↦ cc (sym h ∙ (acted_for j o d s e).0)
      | inr e ↦ e
    ]

acted_times-known :
    (j : ℕ) (arrivals : List (Option WireIntent × AdmissionDeps)) (s : AdmissionState)
    → is_known j s.store ≡ true
    → acted_times j s arrivals ≡ 0
unfolding acted_times
acted_times-known j [] s h = refl
acted_times-known j ((o, d) ∷ arrivals) s h = rw (known-idle j o d s h) (
    omega (
      arith,
      acted_times-known j arrivals (evaluate_intent_admission_early o d s).0
          (admission_keeps j o d s h),
    ))

-- Whatever intents arrive, in whatever order and however often, and whatever the other parts answer
-- meanwhile, the coordinator goes on to act on one intent id at most once, and not at all on one that
-- the store knew before.
pub acted_times-bound :
    (j : ℕ) (arrivals : List (Option WireIntent × AdmissionDeps)) (s : AdmissionState)
    → (acted_times j s arrivals ≤ 1) × (is_known j s.store ≡ true → acted_times j s arrivals ≡ 0)
unfolding acted_times
acted_times-bound j [] s = (omega arith, λ h. refl)
acted_times-bound j ((o, d) ∷ arrivals) s = (
  elim (Bool-cases (is_of j o && is_acted (evaluate_intent_admission_early o d s).1)) [
    | inl e ↦ rw e (
        omega (
          arith,
          acted_times-known j arrivals (evaluate_intent_admission_early o d s).0
              (acted_for j o d s e).1,
        ))
    | inr e ↦
        rw e (
          omega (arith, (acted_times-bound j arrivals (evaluate_intent_admission_early o d s).0).0))
  ],
  acted_times-known j ((o, d) ∷ arrivals) s,
)
