-- ===== src/Venue/Circuit/Isolation.antt =====
-- A failure burst on one family of reads leaves the others alone.
use glitch_topstep.Venue.Circuit.{
  Endpoint, Breaker, is_mutation_path, read_endpoint_family, family_code, is_open_state, is_open,
  record_success, record_failure,
}
use glitch_topstep.Prelude.{
  Bool-cases, All, ℕ, ◌≡◌, refl, ap, ◌∙◌, ◌≢◌, ◌⊎◌, inl, inr, true, false, List, [], ◌∷◌, arith,
}

pub data Event : Type 0 where
  succeeds : Endpoint → Event
  fails : Endpoint → ℕ → Event

pub apply : Event → Breaker → Breaker
apply (succeeds p) b = record_success p b
apply (fails p now) b = record_failure p now b

pub run : List Event → Breaker → Breaker
unfolding apply
run [] b = b
run (e ∷ es) b = run es (apply e b)

abbrev pub path_of : Event → Endpoint
path_of (succeeds p) = p
path_of (fails p now) = p

-- The event is about a mutation, or about a read of another family.
abbrev pub IsApart : Endpoint → Event → Type 0
IsApart p e =
    (is_mutation_path (path_of e) ≡ true)
    ⊎ (family_code (read_endpoint_family p) ≢ family_code (read_endpoint_family (path_of e)))

apply-IsApart :
    (p : Endpoint) (e : Event) (b : Breaker)
    → IsApart p e
    → (apply e b).families (read_endpoint_family p) ≡ b.families (read_endpoint_family p)
unfolding apply record_success record_failure
apply-IsApart p (succeeds q) b (inl m) = rw m refl
apply-IsApart p (succeeds q) b (inr ne) = ground (arith, ne)
apply-IsApart p (fails q now) b (inl m) = rw m refl
apply-IsApart p (fails q now) b (inr ne) = ground (arith, ne)

run-IsApart :
    (p : Endpoint) (es : List Event) (b : Breaker)
    → All (IsApart p) es
    → (run es b).families (read_endpoint_family p) ≡ b.families (read_endpoint_family p)
unfolding run
run-IsApart p [] b a = refl
run-IsApart p (e ∷ es) b a = run-IsApart p es (apply e b) a.1 ∙ apply-IsApart p e b a.0

-- Whatever succeeds and fails on mutations and on reads of other families, and whenever, a read is
-- let through exactly as before. A mutation always is.
pub is_open-run :
    (p : Endpoint) (es : List Event) (b : Breaker) (now : ℕ)
    → All (IsApart p) es
    → (is_open p now (run es b) ≡ is_open p now b)
      × ((is_mutation_path p ≡ false) ⊎ (is_open p now (run es b) ≡ false))
unfolding is_open
is_open-run p es b now a = elim (Bool-cases (is_mutation_path p)) [
  | inl m ↦ (rw m refl, inr (rw m refl))
  | inr r ↦ (rw r (ap (is_open_state now) (run-IsApart p es b a)), inl r)
]
