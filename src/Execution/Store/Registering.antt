-- ===== src/Execution/Store/Registering.antt =====
-- registerIntent of src/storage/sqlite-execution-store.ts.
use glitch_topstep.Execution.Store.Tables.{
  BodyHash, Intent, Store, Registration, legacy, hashed, claimed, duplicate, conflict,
}
use glitch_topstep.Prelude.{◌==◌, if◌then◌else◌, find, ℕ, Option, none, some, List, [], ◌∷◌, ◌++◌}

unfoldable pub rehash : ℕ → BodyHash → List Intent → List Intent
rehash i h [] = []
rehash i h (x ∷ xs) =
    let rest = rehash i h xs in
    if x.intent_id == i then record x { body_hash = h } ∷ rest else x ∷ rest

-- A row of the first schema takes the hash of the first replay.
unfoldable pub compare_hash : ℕ → ℕ → BodyHash → Store → Store × Registration
compare_hash i hash legacy s = (record s { intents = rehash i (hashed hash) s.intents }, duplicate)
compare_hash i hash (hashed stored) s = (s, if stored == hash then duplicate else conflict)

unfoldable pub find_intent : ℕ → List Intent → Option Intent
find_intent i xs = find (λ x. x.intent_id == i) xs

unfoldable pub register_intent : Intent → ℕ → Store → Store × Registration
register_intent x hash s = elim (find_intent x.intent_id s.intents) [
  | some row ↦ compare_hash x.intent_id hash row.body_hash s
  | none ↦ (record s { intents = s.intents ++ record x { body_hash = hashed hash } ∷ [] }, claimed)
]
