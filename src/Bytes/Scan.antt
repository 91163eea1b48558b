-- ===== src/Bytes/Scan.antt =====
-- The scanning loops: the prefix that passes a test, and the rest.
use mini_server.Prelude.{
  ℕ, ◌≡◌, refl, ap, inl, inr, Bool, true, false, [], ◌∷◌, ◌++◌, arith, All, Bool-cases,
}
use mini_server.Bytes.{Bytes, take_while, drop_while, drop_while_end, keep_byte}

module _ (test : ℕ → Bool) where
  abbrev pub Passes : ℕ → Type 0
  Passes c = test c ≡ true

  -- The string is empty or starts with a byte that fails the test.
  abbrev pub Stops : Bytes → Type 0
  Stops [] = Unit
  Stops (c ∷ cs) = test c ≡ false

  pub take_while-append-drop_while : (s : Bytes) → take_while test s ++ drop_while test s ≡ s
  unfolding take_while drop_while
  take_while-append-drop_while [] = refl
  take_while-append-drop_while (c ∷ s) = ground (arith, take_while-append-drop_while s)

  pub take_while-Passes : (s : Bytes) → All Passes (take_while test s)
  unfolding take_while
  take_while-Passes [] = tt
  take_while-Passes (c ∷ s) = ground (arith, take_while-Passes s)

  pub drop_while-Stops : (s : Bytes) → Stops (drop_while test s)
  unfolding drop_while
  drop_while-Stops [] = tt
  drop_while-Stops (c ∷ s) = ground (arith, drop_while-Stops s)

  -- The split is the only one of its kind.
  pub take_while-append : (s t : Bytes) → All Passes s → Stops t → take_while test (s ++ t) ≡ s
  unfolding take_while
  take_while-append [] [] h k = refl
  take_while-append [] (c ∷ t) h k = rw k
  take_while-append (c ∷ s) t h k = rw (h.0, take_while-append s t h.1 k)

  pub drop_while-append : (s t : Bytes) → All Passes s → Stops t → drop_while test (s ++ t) ≡ t
  unfolding drop_while
  drop_while-append [] [] h k = refl
  drop_while-append [] (c ∷ t) h k = rw k
  drop_while-append (c ∷ s) t h k = rw h.0 (drop_while-append s t h.1 k)

  -- The last byte fails the test.
  abbrev pub EndStops : Bytes → Type 0
  EndStops [] = Unit
  EndStops (c ∷ []) = test c ≡ false
  EndStops (c ∷ d ∷ ds) = EndStops (d ∷ ds)

  keep_byte-EndStops : (c : ℕ) (r : Bytes) → EndStops r → EndStops (keep_byte test c r)
  unfolding keep_byte
  keep_byte-EndStops c [] h = ground arith
  keep_byte-EndStops c (d ∷ ds) h = h

  pub drop_while_end-EndStops : (s : Bytes) → EndStops (drop_while_end test s)
  unfolding drop_while_end
  drop_while_end-EndStops [] = tt
  drop_while_end-EndStops (c ∷ s) =
      keep_byte-EndStops c (drop_while_end test s) (drop_while_end-EndStops s)

  -- The string is `r` and then bytes that pass the test.
  abbrev Extends : Bytes → Bytes → Type 0
  Extends r s = (t : Bytes) × (r ++ t ≡ s) × All Passes t

  keep_byte-Extends : (c : ℕ) (r s : Bytes) → Extends r s → Extends (keep_byte test c r) (c ∷ s)
  unfolding keep_byte
  keep_byte-Extends c [] s (t, e, h) = elim (Bool-cases (test c)) [
    | inl p ↦ rw p (c ∷ t, ap (◌∷◌ c) e, (p, h))
    | inr p ↦ rw p (t, ap (◌∷◌ c) e, h)
  ]
  keep_byte-Extends c (d ∷ ds) s (t, e, h) = (t, ap (◌∷◌ c) e, h)

  pub drop_while_end-Extends : (s : Bytes) → Extends (drop_while_end test s) s
  unfolding drop_while_end
  drop_while_end-Extends [] = ([], refl, tt)
  drop_while_end-Extends (c ∷ s) =
      keep_byte-Extends c (drop_while_end test s) s (drop_while_end-Extends s)
