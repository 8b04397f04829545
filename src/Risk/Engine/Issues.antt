-- ===== src/Risk/Engine/Issues.antt =====
-- Which issue incomplete data is refused with.
use glitch_topstep.Prelude.Results.{ok, err}
use glitch_topstep.Domain.EntryReference.{Quote}
use glitch_topstep.Execution.Amendment.{Side}
use glitch_topstep.Risk.Mll.{Policy}
use glitch_topstep.State.Quote.{QuoteState, locked, invalid, derive_execution_eligibility}
use glitch_topstep.State.DataQuality.{
  Issue, quote_locked, quote_geometry_invalid, quote_missing, quote_stale, account_state_stale,
  quote_timestamp_future, account_state_timestamp_future, quote_timestamp_invalid,
  account_state_timestamp_invalid, venue_state_incomplete, includes, add_found,
  issue_code_for_quote_state, quote_state_of, data_completeness, quote_issues, initial_issues,
  state_age_issue, quote_age_issue, age_milliseconds, all_issues, VenueStatus, Limits,
  evaluate_data_quality, is_blocked_locked, is_blocked_invalid,
}
use glitch_topstep.State.DataQuality.Freshness.{includes-snoc_self}
use glitch_topstep.Risk.Engine.{
  TradeIntent, AccountSnapshot, RiskSettings, RiskContext, incomplete, entry_side, check_age,
  check_quality, refused_issue,
}
use glitch_topstep.Risk.Engine.Entry.{validate_entry_risk}
use glitch_topstep.Prelude.{
  if◌then◌else◌, ℤ, ◌≡◌, refl, ◌⊎◌, inl, inr, Bool, true, false, ◌||◌, Option, none, some, List, [],
  ◌∷◌, ◌++◌, arith,
}

includes-snoc :
    (i j : Issue) (xs : List Issue) → includes i xs ≡ true → includes i (xs ++ j ∷ []) ≡ true
includes-snoc i j [] h = cc h
includes-snoc i j (x ∷ xs) h = ground (arith, includes-snoc i j xs)

includes-add_found :
    (i : Issue) (o : Option Issue) (xs : List Issue)
    → includes i xs ≡ true
    → includes i (add_found o xs) ≡ true
includes-add_found i none xs h = h
includes-add_found i (some j) xs h = ground (arith, includes-snoc i j xs)

includes-found : (i : Issue) (xs : List Issue) → includes i (add_found (some i) xs) ≡ true
includes-found i xs = ground (arith, includes-snoc_self i xs)

-- The issue of what a quote is comes in with the quote, and stays.
includes-state_issue :
    (l : Limits) (now : ℤ) (q : Quote) (xs : List Issue) (i : Issue)
    → issue_code_for_quote_state (quote_state_of (some q)) ≡ some i
    → includes i (quote_issues l now (some q) xs) ≡ true
unfolding quote_issues
includes-state_issue l now q xs i h =
    rw h (includes-found i (add_found (quote_age_issue l (age_milliseconds q.timestamp now)) xs))

locked-issue : (s : QuoteState) → s ≡ locked → issue_code_for_quote_state s ≡ some quote_locked
unfolding issue_code_for_quote_state
locked-issue s h = ground arith

invalid-issue :
    (s : QuoteState) → s ≡ invalid → issue_code_for_quote_state s ≡ some quote_geometry_invalid
unfolding issue_code_for_quote_state
invalid-issue s h = ground arith

quote_locked-listed :
    (l : Limits) (now : ℤ) (o : Option Quote) (xs : List Issue)
    → quote_state_of o ≡ locked
    → includes quote_locked (quote_issues l now o xs) ≡ true
unfolding quote_issues
quote_locked-listed l now none xs h = cc h
quote_locked-listed l now (some q) xs h =
    includes-state_issue l now q xs quote_locked (locked-issue (quote_state_of (some q)) h)

quote_invalid-listed :
    (l : Limits) (now : ℤ) (o : Option Quote) (xs : List Issue)
    → quote_state_of o ≡ invalid
    → (o ≡ none) ⊎ (includes quote_geometry_invalid (quote_issues l now o xs) ≡ true)
quote_invalid-listed l now none xs h = inl refl
quote_invalid-listed l now (some q) xs h = inr (
    includes-state_issue l now q xs quote_geometry_invalid
      (invalid-issue (quote_state_of (some q)) h))

includes-all :
    (l : Limits) (s : VenueStatus) (now : ℤ) (i : Issue)
    → includes i (quote_issues l now s.quote (initial_issues s)) ≡ true
    → includes i (all_issues l s now) ≡ true
unfolding all_issues
includes-all l s now i h =
    includes-add_found i (state_age_issue l s now (age_milliseconds s.captured_at now))
      (quote_issues l now s.quote (initial_issues s)) h

blocked_locked-state :
    (s : QuoteState) (complete : Bool)
    → is_blocked_locked (derive_execution_eligibility s complete) ≡ true
    → s ≡ locked
unfolding derive_execution_eligibility
blocked_locked-state s complete h = ground arith

blocked_invalid-state :
    (s : QuoteState) (complete : Bool)
    → is_blocked_invalid (derive_execution_eligibility s complete) ≡ true
    → s ≡ invalid
unfolding derive_execution_eligibility
blocked_invalid-state s complete h = ground arith

-- The issue is one of those found, or the catch-all, or it stands for a missing quote.
abbrev pub Listed : VenueStatus → List Issue → Issue → Type 0
Listed s issues i =
    (includes i issues ≡ true)
    ⊎ ((i ≡ venue_state_incomplete) ⊎ ((s.quote ≡ none) × (i ≡ quote_geometry_invalid)))

eligibility-listed :
    (l : Limits) (s : VenueStatus) (now : ℤ) (complete : Bool)
    → let e = derive_execution_eligibility (quote_state_of s.quote) complete in
      (is_blocked_locked e ≡ true → includes quote_locked (all_issues l s now) ≡ true)
      × (is_blocked_invalid e ≡ true
          → (s.quote ≡ none) ⊎ (includes quote_geometry_invalid (all_issues l s now) ≡ true))
eligibility-listed l s now complete = (
  λ h.
      includes-all l s now quote_locked
        (quote_locked-listed l now s.quote (initial_issues s) (blocked_locked-state _ _ h)),
  λ h. elim (quote_invalid-listed l now s.quote (initial_issues s) (blocked_invalid-state _ _ h)) [
    | inl e ↦ inl e
    | inr e ↦ inr (includes-all l s now quote_geometry_invalid e)
  ],
)

if-elim {ℓ κ} :
    {A : Type ℓ} (P : A → Type κ) (x : A) (b : Bool) {y : A}
    → (b ≡ true → P x)
    → P y
    → P (if b then x else y)
if-elim P x true f g = f refl
if-elim P x false f g = g

or-elim {κ} : {P : Type κ} (a b : Bool) → (a ≡ true → P) → (b ≡ true → P) → (a || b) ≡ true → P
or-elim true b f g h = f refl
or-elim false b f g h = g h

missing-Listed :
    (s : VenueStatus) (issues : List Issue)
    → (s.quote ≡ none) ⊎ (includes quote_geometry_invalid issues ≡ true)
    → Listed s issues quote_geometry_invalid
missing-Listed s issues (inl e) = inr (inr (e, refl))
missing-Listed s issues (inr e) = inl e

refused_issue-Listed :
    (l : Limits) (s : VenueStatus) (now : ℤ)
    → Listed s (all_issues l s now) (refused_issue (evaluate_data_quality l s now))
unfolding refused_issue evaluate_data_quality
refused_issue-Listed l s now =
    let (on_locked, on_invalid) =
      eligibility-listed l s now (data_completeness s.quote (all_issues l s now)) in
    let P = Listed s (all_issues l s now) in
    if-elim P quote_locked _ (or-elim _ _ inl (λ h. inl (on_locked h))) (
      if-elim P quote_geometry_invalid _
        (or-elim _ _ inl (λ h. missing-Listed s (all_issues l s now) (on_invalid h)))
        (if-elim P quote_missing _ inl (
          if-elim P quote_stale _ inl (
            if-elim P account_state_stale _ inl (
              if-elim P quote_timestamp_future _ inl (
                if-elim P account_state_timestamp_future _ inl (
                  if-elim P quote_timestamp_invalid _ inl
                    (if-elim P account_state_timestamp_invalid _ inl (inr (inl refl))))))))))

-- On incomplete data, an entry that is recent enough is refused before anything else is looked at. The
-- code that it is refused with is that of an issue that was found, or the one for venue state that is
-- incomplete; only for a missing quote is it another, the one for a quote of invalid geometry.
pub validate_entry_risk-Listed :
    (i : TradeIntent) (s : AccountSnapshot) (policy : Policy) (settings : RiskSettings)
    (c : RiskContext) (now : ℤ) (side : Side)
    → entry_side i.action ≡ ok side
    → check_age settings now i.created_utc ≡ ok tt
    → (evaluate_data_quality settings.limits s.status now).state_complete ≡ false
    → (issue : Issue) × (validate_entry_risk i s policy settings c now ≡ err (incomplete issue))
      × Listed s.status (evaluate_data_quality settings.limits s.status now).issues issue
unfolding validate_entry_risk check_quality evaluate_data_quality
validate_entry_risk-Listed i s policy settings c now side e aged h = (
  refused_issue (evaluate_data_quality settings.limits s.status now),
  rw (e, aged, h) refl,
  refused_issue-Listed settings.limits s.status now,
)
