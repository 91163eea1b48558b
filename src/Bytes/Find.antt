-- ===== src/Bytes/Find.antt =====
-- `find`: the first occurrence, and the part of the string that it depends on.
use mathlib.Core.Option
use mini_server.Prelude.{
  ℕ, zero, suc, ◌+◌, ◌≤◌, ◌<◌, ◌≡◌, refl, sym, ap, ◌∙◌, subst, ◌≢◌, inl, inr, Bool, true, false,
  Option, none, some, [], ◌∷◌, ◌++◌, arith, ==-refl, All, Bool-cases, Option-cases, drop,
  drop-append_left, drop-drop, if◌then◌else◌, length, length-append, length-drop, length-take,
  ne→==, take, take-append-drop,
}
use mini_server.Bytes.{Bytes, starts_with, find}

starts_with-append : (p s t : Bytes) → starts_with p s ≡ true → starts_with p (s ++ t) ≡ true
unfolding starts_with
starts_with-append [] s t h = refl
starts_with-append (x ∷ p) [] t h = cc
starts_with-append (x ∷ p) (c ∷ s) t h = ground (arith, starts_with-append p s t)

pub starts_with_self : (p t : Bytes) → starts_with p (p ++ t) ≡ true
unfolding starts_with
starts_with_self [] t = refl
starts_with_self (x ∷ p) t = rw (==-refl x, starts_with_self p t)

-- A prefix that the test accepts is there.
pub starts_with-take : (p s : Bytes) → starts_with p s ≡ true → p ++ drop (length p) s ≡ s
unfolding starts_with
starts_with-take [] s h = refl
starts_with-take (x ∷ p) [] h = cc
starts_with-take (x ∷ p) (c ∷ s) h = ground (arith, starts_with-take p s)

starts_with-length : (p s : Bytes) → starts_with p s ≡ true → length p ≤ length s
unfolding starts_with
starts_with-length [] s h = omega arith
starts_with-length (x ∷ p) [] h = cc
starts_with-length (x ∷ p) (c ∷ s) h = ground (arith, starts_with-length p s)

starts_with-append_long :
    (p s t : Bytes) → length p ≤ length s → starts_with p (s ++ t) ≡ starts_with p s
unfolding starts_with
starts_with-append_long [] s t h = refl
starts_with-append_long (x ∷ p) [] t h = absurd (omega arith)
starts_with-append_long (x ∷ p) (c ∷ s) t h = rw (starts_with-append_long p s t (omega arith))

-- `e` is the first position of `s` where `p` stands.
pub record IsFirst (p s : Bytes) (e : ℕ) : Type 0 where
  pub fits : e + length p ≤ length s
  pub occurs : starts_with p (drop e s) ≡ true
  pub first : (i : ℕ) → i < e → starts_with p (drop i s) ≡ false

IsFirst-zero : (p s : Bytes) → starts_with p s ≡ true → IsFirst p s 0
IsFirst-zero p s h = record {
  fits = omega (arith, starts_with-length p s h);
  occurs = h;
  first = λ i lt. absurd (omega arith);
}

first_suc :
    (p s : Bytes) (c e : ℕ)
    → starts_with p (c ∷ s) ≡ false
    → IsFirst p s e
    → (i : ℕ) → i < suc e
    → starts_with p (drop i (c ∷ s)) ≡ false
first_suc p s c e h f zero lt = h
first_suc p s c e h f (suc i) lt = f.first i (omega arith)

IsFirst-suc :
    (p s : Bytes) (c e : ℕ)
    → starts_with p (c ∷ s) ≡ false
    → IsFirst p s e
    → IsFirst p (c ∷ s) (suc e)
IsFirst-suc p s c e h f = record {
  fits = let b = f.fits in omega arith;
  occurs = f.occurs;
  first = first_suc p s c e h f;
}

step_none :
    (b : Bool) (o : Option ℕ)
    → (if b then some 0 else Option.map suc o) ≡ none
    → (b ≡ false) × (o ≡ none)
step_none true o h = cc
step_none false none h = (refl, refl)
step_none false (some n) h = cc

module _ (x : ℕ) (ps : Bytes) where
  find_cons-some : (s : Bytes) (e : ℕ) → find (x ∷ ps) s ≡ some e → IsFirst (x ∷ ps) s e
  unfolding find
  find_cons-some [] e h = cc
  find_cons-some (c ∷ s) e h = elim (Bool-cases (starts_with (x ∷ ps) (c ∷ s))) [
    | inl hit ↦ subst (IsFirst (x ∷ ps) (c ∷ s)) (ground arith) (IsFirst-zero (x ∷ ps) (c ∷ s) hit)
    | inr miss ↦ elim (Option-cases (find (x ∷ ps) s)) [
      | inl gone ↦ absurd (ground arith)
      | inr (k, found) ↦
          subst (IsFirst (x ∷ ps) (c ∷ s)) (ground arith)
            (IsFirst-suc (x ∷ ps) s c k miss (find_cons-some s k found))
    ]
  ]

  find_cons-none :
      (s : Bytes) → find (x ∷ ps) s ≡ none → (i : ℕ) → starts_with (x ∷ ps) (drop i s) ≡ false
  unfolding find
  find_cons-none [] h zero = refl
  find_cons-none [] h (suc i) = refl
  find_cons-none (c ∷ s) h zero = ground arith
  find_cons-none (c ∷ s) h (suc i) = find_cons-none s (step_none _ _ h).1 i

  find_cons-IsFirst : (s : Bytes) (e : ℕ) → IsFirst (x ∷ ps) s e → find (x ∷ ps) s ≡ some e
  unfolding find
  find_cons-IsFirst [] e f = let b = f.fits in absurd (omega arith)
  find_cons-IsFirst (c ∷ s) zero f = let o = f.occurs in ground arith
  find_cons-IsFirst (c ∷ s) (suc e) f = ground (
    arith,
    f.first 0,
    find_cons-IsFirst s e (record {
      fits = let b = f.fits in omega arith;
      occurs = f.occurs;
      first = λ i lt. f.first (suc i) (omega arith);
    }),
  )

pub find-some : (p s : Bytes) (e : ℕ) → find p s ≡ some e → IsFirst p s e
unfolding find
find-some [] s e h = subst (IsFirst [] s) (ground arith) (IsFirst-zero [] s refl)
find-some (x ∷ p) s e h = find_cons-some x p s e h

pub find-IsFirst : (p s : Bytes) (e : ℕ) → IsFirst p s e → find p s ≡ some e
unfolding find
find-IsFirst [] s zero f = refl
find-IsFirst [] s (suc e) f = let o = f.first 0 (omega arith) in absurd (ground arith)
find-IsFirst (x ∷ p) s e f = find_cons-IsFirst x p s e f

-- `npos`: there is no occurrence.
pub find-none :
    (x : ℕ) (p s : Bytes) → find (x ∷ p) s ≡ none → (i : ℕ) → starts_with (x ∷ p) (drop i s) ≡ false
find-none x p s h = find_cons-none x p s h

-- Where `find` succeeds, more bytes at the end change nothing.
IsFirst-append : (p s t : Bytes) (e : ℕ) → IsFirst p s e → IsFirst p (s ++ t) e
IsFirst-append p s t e f = record {
  fits = let b = f.fits in omega (arith, length-append s t);
  occurs =
      rw (drop-append_left e s t (let b = f.fits in omega arith))
        (starts_with-append p (drop e s) t f.occurs);
  first = λ i lt.
      let b = f.fits in
      rw (drop-append_left i s t (omega arith)) (
        rw (starts_with-append_long p (drop i s) t (omega (arith, length-drop i s)))
          (f.first i lt));
}

pub find-append : (p s t : Bytes) (e : ℕ) → find p s ≡ some e → find p (s ++ t) ≡ some e
find-append p s t e h = find-IsFirst p (s ++ t) e (IsFirst-append p s t e (find-some p s e h))

-- The string is what stands before the occurrence, the pattern, and what stands after it.
find-splits :
    (p s : Bytes) (e : ℕ) → find p s ≡ some e → s ≡ take e s ++ (p ++ drop (e + length p) s)
find-splits p s e h =
    sym (take-append-drop e s)
    ∙ ap (◌++◌ (take e s)) (
        sym (starts_with-take p (drop e s) (find-some p s e h).occurs)
        ∙ ap (◌++◌ p) (drop-drop e (length p) s))

-- And bytes behind the occurrence may be cut off.
IsFirst-append_inv :
    (p s t : Bytes) (e : ℕ) → IsFirst p (s ++ t) e → e + length p ≤ length s → IsFirst p s e
IsFirst-append_inv p s t e f b = record {
  fits = b;
  occurs =
      sym (starts_with-append_long p (drop e s) t (omega (arith, length-drop e s)))
      ∙ rw (drop-append_left e s t (omega arith)) at f.occurs;
  first = λ i lt.
      sym (starts_with-append_long p (drop i s) t (omega (arith, length-drop i s)))
      ∙ rw (drop-append_left i s t (omega arith)) at (f.first i lt);
}

pub IsFirst-take :
    (p s : Bytes) (e n : ℕ)
    → IsFirst p s e
    → e + length p ≤ n
    → n ≤ length s
    → IsFirst p (take n s) e
IsFirst-take p s e n f b k =
    IsFirst-append_inv p (take n s) (drop n s) e (rw (take-append-drop n s) f)
      (omega (arith, length-take n s))

-- The first place of a pattern behind bytes that cannot start it.
pub find-append_none :
    (x : ℕ) (p s t : Bytes)
    → All (λ c. c ≢ x) s
    → find (x ∷ p) (s ++ (x ∷ p ++ t)) ≡ some (length s)
unfolding find starts_with
find-append_none x p [] t h = rw (==-refl x, starts_with_self p t)
find-append_none x p (c ∷ s) t h = rw (ne→== x c (λ e. h.0 (sym e)), find-append_none x p s t h.1)
