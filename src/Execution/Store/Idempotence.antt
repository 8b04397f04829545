-- ===== src/Execution/Store/Idempotence.antt =====
-- Registering an intent again.
use mathlib.Core.Path.{subst}
use glitch_topstep.Execution.Store.Tables.{Intent, Store, hashed, claimed, duplicate, conflict}
use glitch_topstep.Execution.Store.Registering.{compare_hash, find_intent, register_intent}
use glitch_topstep.Prelude.{
  ◌==◌, if◌then◌else◌, ℕ, ◌≡◌, refl, sym, ap, ◌∙◌, none, some, List, [], ◌∷◌, ◌++◌, arith,
}

pub find_intent-last :
    (i : ℕ) (xs : List Intent) (x : Intent)
    → find_intent i xs ≡ none
    → x.intent_id ≡ i
    → find_intent i (xs ++ x ∷ []) ≡ some x
unfolding find_intent
find_intent-last i [] x e h = ground arith
find_intent-last i (y ∷ xs) x e h = ground (arith, find_intent-last i xs x)

register_known :
    (x y : Intent) (hash stored : ℕ) (s : Store)
    → find_intent x.intent_id s.intents ≡ some y
    → y.body_hash ≡ hashed stored
    → register_intent x hash s ≡ (s, if stored == hash then duplicate else conflict)
unfolding register_intent
register_known x y hash stored s e h =
    rw (e, register_intent)
      (ap (λ b. compare_hash x.intent_id hash b s) h ∙ unfold compare_hash in refl)

pub register_new :
    (x : Intent) (hash : ℕ) (s : Store)
    → find_intent x.intent_id s.intents ≡ none
    → register_intent x hash s
      ≡ (record s { intents = s.intents ++ record x { body_hash = hashed hash } ∷ [] }, claimed)
unfolding register_intent
register_new x hash s e = rw (e, register_intent) refl

-- An unknown intent is claimed once. The same id again changes nothing: it is a duplicate with the
-- same body, and a conflict with any other.
pub register_once :
    (x y : Intent) (hash again : ℕ) (s : Store)
    → find_intent x.intent_id s.intents ≡ none
    → y.intent_id ≡ x.intent_id
    → ((register_intent x hash s).1 ≡ claimed)
      × (let s' = (register_intent x hash s).0 in
          register_intent y again s' ≡ (s', if hash == again then duplicate else conflict))
register_once x y hash again s unknown same = rw (register_new x hash s unknown) (
  refl,
  register_known y (record x { body_hash = hashed hash }) again hash _
      (find_intent-last y.intent_id s.intents (record x { body_hash = hashed hash })
        (subst (λ j. find_intent j s.intents ≡ none) (sym same) unknown) (sym same))
      refl,
)
