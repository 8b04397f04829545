-- ===== src/Venue/Circuit/Opening.antt =====
-- When a family opens, and for how long.
use glitch_topstep.Venue.Circuit.{
  Endpoint, FamilyState, Breaker, is_mutation_path, read_endpoint_family, fail_state, is_open_state,
  is_open, record_failure,
}
use glitch_topstep.Prelude.{
  ltb, or_else, length, ℕ, suc, ◌+◌, ◌<◌, ◌≡◌, refl, ap, ◌∙◌, false, Option, none, some, List, [],
  ◌∷◌, arith,
}

-- Failures on a path, at the given times.
pub fail_all : Endpoint → List ℕ → Breaker → Breaker
fail_all p [] b = b
fail_all p (t ∷ ts) b = fail_all p ts (record_failure p t b)

abbrev state_of : Endpoint → Breaker → FamilyState
state_of p b =
    or_else (b.families (read_endpoint_family p)) (record { failures = 0; open_until_ms = 0 })

record_failure-state :
    (p : Endpoint) (t : ℕ) (b : Breaker)
    → is_mutation_path p ≡ false
    → (record_failure p t b).families (read_endpoint_family p)
      ≡ some (fail_state t b (state_of p b))
unfolding record_failure
record_failure-state p t b r = rw r (ground arith)

record_failure-kept :
    (p : Endpoint) (t : ℕ) (b : Breaker)
    → ((record_failure p t b).failure_threshold ≡ b.failure_threshold)
      × ((record_failure p t b).cooldown_ms ≡ b.cooldown_ms)
unfolding record_failure
record_failure-kept p t b = ground arith

state_of-failed :
    (p : Endpoint) (t : ℕ) (b : Breaker)
    → is_mutation_path p ≡ false
    → state_of p (record_failure p t b) ≡ fail_state t b (state_of p b)
state_of-failed p t b r =
    ap (λ o. or_else o (record { failures = 0; open_until_ms = 0 })) (record_failure-state p t b r)

fail_state-below :
    (t : ℕ) (b : Breaker) (s : FamilyState)
    → s.failures + 1 < b.failure_threshold
    → fail_state t b s ≡ record s { failures = s.failures + 1 }
fail_state-below t b s h = ground arith

fail_state-at :
    (t : ℕ) (b : Breaker) (s : FamilyState)
    → s.failures + 1 ≡ b.failure_threshold
    → fail_state t b s ≡ record { failures = 0; open_until_ms = t + b.cooldown_ms }
fail_state-at t b s h = ground arith

record Counted (p : Endpoint) (n : ℕ) (b c : Breaker) : Type 0 where
  threshold : c.failure_threshold ≡ b.failure_threshold
  cooldown : c.cooldown_ms ≡ b.cooldown_ms
  failures : (state_of p c).failures ≡ (state_of p b).failures + n
  until : (state_of p c).open_until_ms ≡ (state_of p b).open_until_ms

fail_all-Counted :
    (p : Endpoint) (ts : List ℕ) (b : Breaker)
    → is_mutation_path p ≡ false
    → (state_of p b).failures + length ts < b.failure_threshold
    → Counted p (length ts) b (fail_all p ts b)
unfolding fail_all
fail_all-Counted p [] b r h = record {
  threshold = refl;
  cooldown = refl;
  failures = omega arith;
  until = refl;
}
fail_all-Counted p (t ∷ ts) b r h =
    let kept = record_failure-kept p t b in
    let now : state_of p (record_failure p t b)
        ≡ record (state_of p b) { failures = (state_of p b).failures + 1 } =
      state_of-failed p t b r ∙ fail_state-below t b (state_of p b) (omega arith) in
    let count = ap (λ (s : FamilyState). s.failures) now in
    let c = fail_all-Counted p ts (record_failure p t b) r (omega (arith, kept.0, count)) in
    record {
      threshold = c.threshold ∙ kept.0;
      cooldown = c.cooldown ∙ kept.1;
      failures = omega (arith, c.failures, count);
      until = c.until ∙ ap (λ (s : FamilyState). s.open_until_ms) now;
    }

is_open-state :
    (p : Endpoint) (now : ℕ) (b : Breaker)
    → is_mutation_path p ≡ false
    → is_open p now b ≡ ltb now (state_of p b).open_until_ms
unfolding is_open
is_open-state p now b r = rw r (by_state (b.families (read_endpoint_family p)))
  where
    by_state :
        (o : Option FamilyState)
        → is_open_state now o
          ≡ ltb now (or_else o (record { failures = 0; open_until_ms = 0 })).open_until_ms
    by_state none = ground arith
    by_state (some s) = refl

-- From a family without failures, fewer failures than the threshold let its reads through at every
-- time; the one that reaches the threshold, whenever it comes, stops them until the cooldown from
-- that failure is over, and no longer.
pub fail_all-is_open :
    (p : Endpoint) (ts : List ℕ) (t : ℕ) (b : Breaker) (now : ℕ)
    → is_mutation_path p ≡ false
    → b.families (read_endpoint_family p) ≡ none
    → suc (length ts) ≡ b.failure_threshold
    → (is_open p now (fail_all p ts b) ≡ false)
      × (is_open p now (record_failure p t (fail_all p ts b)) ≡ ltb now (t + b.cooldown_ms))
fail_all-is_open p ts t b now r e h =
    let clean : state_of p b ≡ record { failures = 0; open_until_ms = 0 } =
      ap (λ o. or_else o (record { failures = 0; open_until_ms = 0 })) e in
    let zero_count = ap (λ (s : FamilyState). s.failures) clean in
    let c = fail_all-Counted p ts b r (omega (arith, zero_count)) in
    let last =
      state_of-failed p t (fail_all p ts b) r
      ∙ fail_state-at t (fail_all p ts b) (state_of p (fail_all p ts b))
          (omega (arith, c.failures, zero_count, c.threshold)) in
    (
      is_open-state p now (fail_all p ts b) r
          ∙ ap (ltb now) (c.until ∙ ap (λ (s : FamilyState). s.open_until_ms) clean)
          ∙ ground arith,
      is_open-state p now (record_failure p t (fail_all p ts b)) r
          ∙ ap (ltb now)
              (ap (λ (s : FamilyState). s.open_until_ms) last ∙ ap (λ n. t + n) c.cooldown),
    )
