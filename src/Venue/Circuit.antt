-- ===== src/Venue/Circuit.antt =====
-- ReadCircuitBreaker of src/projectx/read-circuit-breaker.ts, and isMutationPath of
-- src/projectx/retry-policy.ts. A path is one of those the two name, or another; the map of families
-- is a function. Times are milliseconds.
mod Isolation
mod Opening
mod Examples
use glitch_topstep.Prelude.{
  ◌>>=◌, ltb, leb, ◌==◌, if◌then◌else◌, ltb→lt, leb→le, ==_iff, Bool-cases, Option-cases, is_some,
  is_none, or_else, length, is_empty, length-append, some_of, some_inj, every, keep, find,
  length-keep-le, All, ℤ, pos, negsuc, pos_part, neg_part, sub_ℕ, ◌+ℤ◌, ◌-ℤ◌, ◌*ℤ◌, ◌≤ℤ◌, ◌<ℤ◌,
  ltb_ℤ, leb_ℤ, eqb_ℤ, max_ℤ, min_ℤ, +ℤ_parts, -ℤ_parts, eq_of_parts, int_laws, Number, nan,
  neg_infinity, pos_infinity, finite, is_finite, num_lt, num_eq, num_le, is_positive, ℕ, zero, suc,
  ◌+◌, ◌-◌, ◌*◌, ◌/◌, ◌≤◌, ◌<◌, min, max, ◌≡◌, refl, sym, ap, ◌∙◌, ◌≢◌, ◌↔◌, ◌⊎◌, inl, inr, Bool,
  true, false, not, ◌&&◌, ◌||◌, Option, none, some, List, [], ◌∷◌, ◌++◌, map, arith, ℕ_discrete,
}

pub data Endpoint : Type 0 where
  order_place order_modify order_cancel position_close_contract : Endpoint
  history_retrieve_bars position_search_open order_search_open order_search : Endpoint
  trade_search account_search contract_available auth_validate : Endpoint
  another : ℕ → Endpoint

pub data Family : Type 0 where
  bars positions orders trades accounts contracts auth other : Family

abbrev pub is_mutation_path : Endpoint → Bool
is_mutation_path order_place = true
is_mutation_path order_modify = true
is_mutation_path order_cancel = true
is_mutation_path position_close_contract = true
is_mutation_path _ = false

abbrev pub read_endpoint_family : Endpoint → Family
read_endpoint_family history_retrieve_bars = bars
read_endpoint_family position_search_open = positions
read_endpoint_family order_search_open = orders
read_endpoint_family order_search = orders
read_endpoint_family trade_search = trades
read_endpoint_family account_search = accounts
read_endpoint_family contract_available = contracts
read_endpoint_family auth_validate = auth
read_endpoint_family _ = other

abbrev pub family_code : Family → ℕ
family_code bars = 0
family_code positions = 1
family_code orders = 2
family_code trades = 3
family_code accounts = 4
family_code contracts = 5
family_code auth = 6
family_code other = 7

pub record FamilyState : Type 0 where
  pub failures : ℕ
  pub open_until_ms : ℕ

pub record Breaker : Type 0 where
  pub failure_threshold : ℕ
  pub cooldown_ms : ℕ
  pub families : Family → Option FamilyState

-- `families.set(family, state)`, and `families.delete(family)` for `none`.
abbrev pub set_family : Family → Option FamilyState → Breaker → Breaker
set_family f state b = record b {
  families = λ g. if family_code g == family_code f then state else b.families g;
}

abbrev pub is_open_state : ℕ → Option FamilyState → Bool
is_open_state now none = false
is_open_state now (some s) = ltb now s.open_until_ms

unfoldable pub is_open : Endpoint → ℕ → Breaker → Bool
is_open p now b =
    if is_mutation_path p then false else is_open_state now (b.families (read_endpoint_family p))

unfoldable pub record_success : Endpoint → Breaker → Breaker
record_success p b = if is_mutation_path p then b else set_family (read_endpoint_family p) none b

-- One failure more: at the threshold the family opens and the count starts again.
abbrev pub fail_state : ℕ → Breaker → FamilyState → FamilyState
fail_state now b s =
    if leb b.failure_threshold (s.failures + 1)
    then record { failures = 0; open_until_ms = now + b.cooldown_ms }
    else record s { failures = s.failures + 1 }

unfoldable pub record_failure : Endpoint → ℕ → Breaker → Breaker
record_failure p now b =
    if is_mutation_path p
    then b
    else set_family (read_endpoint_family p)
        (some (
          fail_state now b (
            or_else (b.families (read_endpoint_family p))
              (record { failures = 0; open_until_ms = 0 }))))
        b
