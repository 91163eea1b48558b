-- ===== src/Bytes/Dict.antt =====
-- A map from strings, as `std::unordered_map` serves the program: it is never iterated.
use mini_server.Prelude.{
  ◌≡◌, ap, ◌≢◌, inl, inr, false, Option, none, some, List, [], ◌∷◌, arith, Bool-cases,
  if◌then◌else◌,
}
use mini_server.Bytes.{Bytes, beq, beq_refl, beq→eq}

ne_of_beq : (k j : Bytes) → beq j k ≡ false → k ≢ j
ne_of_beq k j h e = cc (h, rw e at (beq_refl k), ap (beq j) e)

module _ {ℓ} {V : Type ℓ} where
  -- m.find(key)
  unfoldable pub lookup : Bytes → List (Bytes × V) → Option V
  lookup k [] = none
  lookup k ((j, v) ∷ m) = if beq j k then some v else lookup k m

  -- m[key] = value
  unfoldable pub insert : Bytes → V → List (Bytes × V) → List (Bytes × V)
  insert k v [] = (k, v) ∷ []
  insert k v ((j, w) ∷ m) = if beq j k then (k, v) ∷ m else (j, w) ∷ insert k v m

  lookup-insert_self : (k : Bytes) (v : V) (m : List (Bytes × V)) → lookup k (insert k v m) ≡ some v
  unfolding lookup insert
  lookup-insert_self k v [] = rw (beq_refl k)
  lookup-insert_self k v ((j, w) ∷ m) = ground (arith, beq_refl k, lookup-insert_self k v m)

  lookup-insert_ne :
      (k j : Bytes) (v : V) (m : List (Bytes × V)) → k ≢ j → lookup j (insert k v m) ≡ lookup j m
  unfolding lookup insert
  lookup-insert_ne k j v [] h = ground (arith, beq→eq k j)
  lookup-insert_ne k j v ((i, w) ∷ m) h =
      ground (arith, beq→eq k j, beq→eq i k, lookup-insert_ne k j v m)

  pub lookup-insert :
      (k j : Bytes) (v : V) (m : List (Bytes × V))
      → lookup j (insert k v m) ≡ (if beq j k then some v else lookup j m)
  lookup-insert k j v m = elim (Bool-cases (beq j k)) [
    | inl same ↦ rw (same, beq→eq j k same) (lookup-insert_self k v m)
    | inr other ↦ rw other (lookup-insert_ne k j v m (ne_of_beq k j other))
  ]
