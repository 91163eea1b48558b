-- ===== src/RequestRouter/Fields.antt =====
-- `RequestRouter::formValue` against a split of the body at each "&".
use mathlib.Core.Option
use mini_server.Prelude.{
  ℕ, zero, suc, ◌+◌, ◌<◌, ◌≡◌, refl, sym, ap, ◌∙◌, ◌≢◌, ◌⊎◌, inl, inr, Option, none, some, List, [],
  ◌∷◌, arith, Option-cases, drop, if◌then◌else◌, length, length-drop, ne→==, some_eq, take, ◌==◌,
}
use mini_server.Bytes.{Bytes, find, starts_with}
use mini_server.Bytes.Find.{find-some}
use mini_server.RequestRouter.{pair_value, or_else, form_loop, form_value}

-- The byte `c` at the head of the first field.
abbrev pub glue : ℕ → List Bytes → List Bytes
glue c [] = (c ∷ []) ∷ []
glue c (f ∷ fs) = (c ∷ f) ∷ fs

-- The fields between the separators.
unfoldable pub split_fields : Bytes → List Bytes
split_fields [] = [] ∷ []
split_fields (c ∷ s) = if c == b'&' then [] ∷ split_fields s else glue c (split_fields s)

-- The decoded value of the first field with that name, or the empty text.
unfoldable pub first_value : Bytes → List Bytes → Bytes
first_value key [] = []
first_value key (f ∷ fs) = or_else (pair_value key f) (first_value key fs)

pub find-amp_here : (c : ℕ) (s : Bytes) → c ≡ b'&' → find (b'&' ∷ []) (c ∷ s) ≡ some 0
unfolding find starts_with
find-amp_here c s h = ground arith

pub find-amp_later :
    (c : ℕ) (s : Bytes) → c ≢ b'&' → find (b'&' ∷ []) (c ∷ s) ≡ Option.map suc (find (b'&' ∷ []) s)
unfolding find starts_with
find-amp_later c s h = ground arith

pub split_fields_here : (c : ℕ) (s : Bytes) → c ≡ b'&' → split_fields (c ∷ s) ≡ [] ∷ split_fields s
unfolding split_fields
split_fields_here c s h = ground arith

pub split_fields_later :
    (c : ℕ) (s : Bytes) → c ≢ b'&' → split_fields (c ∷ s) ≡ glue c (split_fields s)
unfolding split_fields
split_fields_later c s h = rw (ne→== c b'&' h) refl

pub map-suc-none : (o : Option ℕ) → Option.map suc o ≡ none → o ≡ none
map-suc-none none h = refl
map-suc-none (some k) h = cc

pub map-suc-some :
    (o : Option ℕ) (e : ℕ) → Option.map suc o ≡ some e → (k : ℕ) × (o ≡ some k) × (e ≡ suc k)
map-suc-some none e h = cc
map-suc-some (some k) e h = (k, refl, sym (some_eq h))

pub ==-cases : (a b : ℕ) → (a ≡ b) ⊎ (a ≢ b)
==-cases a b = ground arith

pub split_fields-none : (s : Bytes) → find (b'&' ∷ []) s ≡ none → split_fields s ≡ s ∷ []
unfolding split_fields
split_fields-none [] h = refl
split_fields-none (c ∷ s) h = elim (==-cases c b'&') [
  | inl same ↦ cc (h, find-amp_here c s same)
  | inr other ↦
      split_fields_later c s other
      ∙ ap (glue c) (split_fields-none s (map-suc-none _ (sym (find-amp_later c s other) ∙ h)))
]

pub split_fields-some :
    (s : Bytes) (e : ℕ)
    → find (b'&' ∷ []) s ≡ some e
    → split_fields s ≡ take e s ∷ split_fields (drop (suc e) s)
unfolding find
split_fields-some [] e h = cc
split_fields-some (c ∷ s) e h = elim (==-cases c b'&') [
  | inl same ↦
      split_fields_here c s same
      ∙ ap (λ k. take k (c ∷ s) ∷ split_fields (drop (suc k) (c ∷ s)))
          (some_eq (sym (find-amp_here c s same) ∙ h))
  | inr other ↦
      let (k, at, e_is) = map-suc-some _ e (sym (find-amp_later c s other) ∙ h) in
      split_fields_later c s other
      ∙ ap (glue c) (split_fields-some s k at)
      ∙ ap (λ k. take k (c ∷ s) ∷ split_fields (drop (suc k) (c ∷ s))) (sym e_is)
]

pub split_fields_at :
    (s : Bytes) (e : ℕ)
    → find (b'&' ∷ []) s ≡ some e
    → split_fields s ≡ take e s ∷ split_fields (drop (e + 1) s)
split_fields_at s e h =
    let next : suc e ≡ e + 1 = omega arith in
    split_fields-some s e h ∙ ap (λ k. take e s ∷ split_fields (drop k s)) next

pub form_loop-split_fields :
    (fuel : ℕ) (key rest : Bytes)
    → length rest < fuel
    → form_loop fuel key rest ≡ first_value key (split_fields rest)
unfolding form_loop first_value
form_loop-split_fields zero key rest h = absurd (omega arith)
form_loop-split_fields (suc fuel) key rest h = elim (Option-cases (find (b'&' ∷ []) rest)) [
  | inl gone ↦ rw (gone, form_loop) (sym (ap (first_value key) (split_fields-none rest gone)))
  | inr (e, at) ↦
      let f = find-some (b'&' ∷ []) rest e at in
      let short : length (drop (e + 1) rest) < fuel =
        let g = f.fits in omega (arith, length-drop (e + 1) rest) in
      rw (at, form_loop)
        (ap (or_else (pair_value key (take e rest)))
            (form_loop-split_fields fuel key (drop (e + 1) rest) short)
          ∙ sym (ap (first_value key) (split_fields_at rest e at)))
]

-- `formValue` gives the decoded value of the first field between "&" that has the name, and the empty
-- text if there is none; its loop has fuel enough for every body.
pub form_value-split_fields :
    (body key : Bytes) → form_value body key ≡ first_value key (split_fields body)
unfolding form_value
form_value-split_fields body key = form_loop-split_fields (suc (length body)) key body (omega arith)
