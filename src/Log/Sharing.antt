-- ===== src/Log/Sharing.antt =====
-- log/context.go: the maps that `With`, `Fields`, `NewContext`, `Ctx` and `AppendContext` read and
-- make. A map is shared by all that have its address, so that here the maps stand in a store.
pub mod Fresh
pub mod Apart
use golang_service.Prelude.{
  ℕ, zero, suc, ◌+◌, String, List, [], ◌∷◌, ◌++◌, Option, none, some, length,
}
use golang_service.Prelude.Text.{insert}
use golang_service.Http.{Fields, Any}
use golang_service.Log.Entry.{copy_fields}

-- the maps that were made so far, by their address
abbrev pub Maps : Type 0
Maps = List Fields

unfoldable pub map_at : Maps → ℕ → Fields
map_at [] p = []
map_at (m ∷ ms) zero = m
map_at (m ∷ ms) (suc p) = map_at ms p

-- `m[k] = v`
unfoldable pub put : ℕ → String → Any → Maps → Maps
unfolding insert
put p k v [] = []
put zero k v (m ∷ ms) = insert k v m ∷ ms
put (suc p) k v (m ∷ ms) = m ∷ put p k v ms

abbrev pub allocate : Fields → Maps → ℕ × Maps
allocate m ms = (length ms, ms ++ m ∷ [])

-- `Fields`: a copy
unfoldable pub fields_at : ℕ → Maps → ℕ × Maps
unfolding map_at copy_fields
fields_at c ms = allocate (copy_fields (map_at ms c)) ms

-- An entry is the address of its `Data`; `merge` is what logrus puts into the `Data` of the new
-- entry that `WithFields` makes.
module _ (merge : Fields → Fields → Fields) where
  -- `With`
  unfoldable pub with_at : ℕ → ℕ → Maps → ℕ × Maps
  unfolding map_at copy_fields
  with_at c p ms =
      let (copied, ms') = allocate (copy_fields (map_at ms p)) ms in
      allocate (merge (map_at ms' c) (map_at ms' copied)) ms'

  -- `Ctx`, by the address of the map in the context
  unfoldable pub ctx_at : ℕ → Option ℕ → Maps → ℕ × Maps
  unfolding with_at
  ctx_at c (some p) ms = with_at c p ms
  ctx_at c none ms = let (p, ms') = allocate [] ms in with_at c p ms'

  -- `AppendContext`: the address of the map in the new context
  unfoldable pub append_context_at : ℕ → Option ℕ → ℕ → Maps → ℕ × Maps
  unfolding ctx_at with_at fields_at
  append_context_at c ctx p ms =
      let (d, ms1) = ctx_at c ctx ms in let (e, ms2) = with_at d p ms1 in fields_at e ms2

-- what is in the map of a context
abbrev pub context_map : Maps → Option ℕ → Fields
context_map ms none = []
context_map ms (some p) = map_at ms p
