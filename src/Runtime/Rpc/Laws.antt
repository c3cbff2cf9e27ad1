-- ===== src/Runtime/Rpc/Laws.antt =====
-- The maps of handlers: what a lookup finds after each operation.
use hasten.Common.{ℕ, ◌≡◌, refl, ◌≢◌, List, [], ◌∷◌, none, some, arith}
use hasten.Runtime.Rpc.{find, assign, erase, Registry, register_handler, find_handler}

module _ {ℓ} {Handler : Type ℓ} where
  -- After a map is set at an id, a lookup of the id finds what was set.
  pub find-assign :
      (handlers : List (ℕ × Handler)) (id : ℕ) (h : Handler)
      → find (assign handlers id h) id ≡ some h
  unfolding find assign
  find-assign [] id h = ground arith
  find-assign ((key, old) ∷ handlers) id h = ground (arith, find-assign handlers id h)

  -- A lookup of another id finds what it did.
  pub find-assign_other :
      (handlers : List (ℕ × Handler)) (id other : ℕ) (h : Handler)
      → other ≢ id
      → find (assign handlers id h) other ≡ find handlers other
  unfolding find assign
  find-assign_other [] id other h ne = ground arith
  find-assign_other ((key, old) ∷ handlers) id other h ne =
      ground (arith, find-assign_other handlers id other h ne)

  pub find-erase : (handlers : List (ℕ × Handler)) (id : ℕ) → find (erase handlers id) id ≡ none
  unfolding find erase
  find-erase [] id = refl
  find-erase ((key, old) ∷ handlers) id = ground (arith, find-erase handlers id)

  pub find-erase_other :
      (handlers : List (ℕ × Handler)) (id other : ℕ)
      → other ≢ id
      → find (erase handlers id) other ≡ find handlers other
  unfolding find erase
  find-erase_other [] id other ne = refl
  find-erase_other ((key, old) ∷ handlers) id other ne =
      ground (arith, find-erase_other handlers id other ne)

  -- A handler that is registered is the one found for its interface, and the other interfaces keep
  -- theirs.
  pub find_handler-register_handler :
      (registry : Registry Handler) (id : ℕ) (h : Handler)
      → (find_handler id (register_handler id h registry) ≡ some h)
        × ((other : ℕ)
            → other ≢ id
            → find_handler other (register_handler id h registry) ≡ find_handler other registry)
  unfolding find_handler register_handler
  find_handler-register_handler registry id h =
      (find-assign registry id h, λ other. find-assign_other registry id other h)
