-- ===== src/Prelude/Keys.antt =====
-- Association lists sorted by their keys: what `sort.Strings` makes of the keys of a map. Go ranges
-- over a map in any order, so the order of the list must not matter.
use mathlib.Core.Path.{◌≡◌, refl, ap, ap₂, ◌∙◌, sym}
use mathlib.Core.Bool.{true, false, true≢false}
use mathlib.Core.HLevel.{Discrete, hedberg}
use mathlib.Core.Logic.{inl, inr}
use mathlib.Core.List.Permᴰ
use mathlib.Core.List.{List, [], ◌∷◌, Pairwise, Permᴰ, mem-cons_self}
use text.Mathlib.TextEquality.{eq_iff}
use Prim.Native.String.{String}
use withdraw_bot.Prelude.Tests.{if◌then◌else◌, Bool-cases}
use withdraw_bot.Prelude.Text.{str_eq, str_ltb}
use withdraw_bot.Prelude.Order.{str_ltb_trans, str_ltb_asym, str_ltb_total}

text_discrete : Discrete String
text_discrete s t = elim (Bool-cases (str_eq s t)) [
  | inl same ↦ yes ((eq_iff s t).0 same)
  | inr other ↦ no (λ p. true≢false (sym ((eq_iff s t).1 p) ∙ other))
]

-- Two proofs that two texts are equal are equal.
pub text_set : IsSet String
text_set = hedberg text_discrete

module _ {ℓ} {V : Type ℓ} where
  abbrev pub insert_key : String × V → List (String × V) → List (String × V)
  insert_key f [] = f ∷ []
  insert_key f (g ∷ gs) =
      let below = insert_key f gs in if str_ltb g.0 f.0 then g ∷ below else f ∷ g ∷ gs

  unfoldable pub sort_keys : List (String × V) → List (String × V)
  sort_keys [] = []
  sort_keys (f ∷ fs) = insert_key f (sort_keys fs)

  abbrev pub Differ : String × V → String × V → Type 0
  Differ a b = str_eq a.0 b.0 ≡ false

  insert_key-before :
      (f g : String × V) (gs : List (String × V))
      → str_ltb g.0 f.0 ≡ false
      → insert_key f (g ∷ gs) ≡ f ∷ g ∷ gs
  insert_key-before f g gs h = rw h refl

  insert_key-after :
      (f g : String × V) (gs : List (String × V))
      → str_ltb g.0 f.0 ≡ true
      → insert_key f (g ∷ gs) ≡ g ∷ insert_key f gs
  insert_key-after f g gs h = rw h refl

  -- Two keys of which the first is smaller, in front of a list that is above both.
  insert_key-two :
      (a b : String × V) (l : List (String × V))
      → Differ a b
      → insert_key a l ≡ a ∷ l
      → insert_key b l ≡ b ∷ l
      → insert_key a (insert_key b l) ≡ insert_key b (insert_key a l)
  insert_key-two a b l d ha hb = elim (Bool-cases (str_ltb a.0 b.0)) [
    | inl below ↦
        ap (insert_key a) hb
        ∙ insert_key-before a b l (str_ltb_asym a.0 b.0 below)
        ∙ sym (ap (insert_key b) ha ∙ insert_key-after b a l below ∙ ap (λ r. a ∷ r) hb)
    | inr above ↦
        ap (insert_key a) hb
        ∙ insert_key-after a b l (str_ltb_total a.0 b.0 d above)
        ∙ ap (λ r. b ∷ r) ha
        ∙ sym (ap (insert_key b) ha ∙ insert_key-before b a l above)
  ]

  Differ-sym : (a b : String × V) → Differ a b → Differ b a
  Differ-sym a b d = elim (Bool-cases (str_eq b.0 a.0)) [
    | inl same ↦
        let bad =
          sym (ap (λ k. str_eq k b.0) ((eq_iff b.0 a.0).0 same)) ∙ (eq_iff b.0 b.0).1 refl in
        cc
    | inr other ↦ other
  ]

  -- What is above a key and not above another one.
  between :
      (a b x : String × V)
      → Differ a b
      → str_ltb x.0 a.0 ≡ true
      → str_ltb x.0 b.0 ≡ false
      → str_ltb b.0 a.0 ≡ true
  between a b x d xa bx = elim (Bool-cases (str_ltb a.0 b.0)) [
    | inl ab ↦ let bad = str_ltb_trans x.0 a.0 b.0 xa ab in cc
    | inr ba ↦ str_ltb_total a.0 b.0 d ba
  ]

  insert_key-between :
      (a b x : String × V) (l : List (String × V))
      → Differ a b
      → str_ltb x.0 a.0 ≡ true
      → str_ltb x.0 b.0 ≡ false
      → insert_key a (insert_key b (x ∷ l)) ≡ insert_key b (insert_key a (x ∷ l))
  insert_key-between a b x l d xa bx =
      ap (insert_key a) (insert_key-before b x l bx)
      ∙ insert_key-after a b (x ∷ l) (between a b x d xa bx)
      ∙ ap (λ r. b ∷ r) (insert_key-after a x l xa)
      ∙ sym (
          ap (insert_key b) (insert_key-after a x l xa) ∙ insert_key-before b x (insert_key a l) bx)

  insert_key_comm :
      (a b : String × V) (l : List (String × V))
      → Differ a b
      → insert_key a (insert_key b l) ≡ insert_key b (insert_key a l)
  insert_key_comm a b [] d = insert_key-two a b [] d refl refl
  insert_key_comm a b (x ∷ l) d = elim (Bool-cases (str_ltb x.0 a.0)) [
    | inl xa ↦ elim (Bool-cases (str_ltb x.0 b.0)) [
      | inl xb ↦
          ap (insert_key a) (insert_key-after b x l xb)
          ∙ insert_key-after a x (insert_key b l) xa
          ∙ ap (λ r. x ∷ r) (insert_key_comm a b l d)
          ∙ sym (
              ap (insert_key b) (insert_key-after a x l xa)
              ∙ insert_key-after b x (insert_key a l) xb)
      | inr bx ↦ insert_key-between a b x l d xa bx
    ]
    | inr ax ↦ elim (Bool-cases (str_ltb x.0 b.0)) [
      | inl xb ↦ sym (insert_key-between b a x l (Differ-sym a b d) xb ax)
      | inr bx ↦
          insert_key-two a b (x ∷ l) d (insert_key-before a x l ax) (insert_key-before b x l bx)
    ]
  ]

  -- Keys that are all different.
  abbrev pub Distinct : List (String × V) → Type ℓ
  Distinct = Pairwise Differ

  -- The sorted list does not depend on the order in which a map hands out its keys.
  pub sort_keys_permuted :
      {l r : List (String × V)} → Permᴰ l r → Distinct l → sort_keys l ≡ sort_keys r
  unfolding sort_keys
  sort_keys_permuted Permᴰ.nil d = refl
  sort_keys_permuted (Permᴰ.cons e p) (Pairwise.cons h d) =
      ap₂ insert_key e (sort_keys_permuted p d)
  sort_keys_permuted (Permᴰ.swap {a = a} {b = b} {l = l} e₁ e₂) (Pairwise.cons h d) =
      insert_key_comm a b (sort_keys l) (h b mem-cons_self)
      ∙ ap₂ (λ x y. insert_key x (insert_key y (sort_keys l))) e₂ e₁
  sort_keys_permuted (Permᴰ.trans p q) d =
      sort_keys_permuted p d ∙ sort_keys_permuted q (Permᴰ.pairwise (λ a b. hlevel) Differ-sym p d)
