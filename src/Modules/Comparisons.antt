-- ===== src/Modules/Comparisons.antt =====
-- internal/monitor/modules/morpho/vault_state.go: the comparison of two values of a field.
use withdraw_bot.Prelude.{
  String, Bool, true, false, ◌&&◌, List, [], ◌∷◌, str_eq, eq_iff, eq_refl, ◌≡◌, refl, sym, ap, ap₂,
  ◌⊎◌,
}
use withdraw_bot.Modules.VaultState.{
  Collection, list_eq, bool_eq, collection_eq, is_empty_collection, Comparison,
}

-- The two values of a compared field are the same, or both are empty collections.
abbrev pub Unchanged : Comparison → Type 0
Unchanged (Comparison.string_field name expected actual) = expected ≡ actual
Unchanged (Comparison.collection_field name expected actual) =
    ((is_empty_collection expected && is_empty_collection actual) ≡ true) ⊎ (expected ≡ actual)

and_split : (a b : Bool) → (a && b) ≡ true → (a ≡ true) × (b ≡ true)
and_split true b h = (refl, h)
and_split false b h = cc

and_both : {a b : Bool} → a ≡ true → b ≡ true → (a && b) ≡ true
and_both {a = true} p q = q
and_both {a = false} p q = cc

module _ {A : Type 0} (eq : A → A → Bool) where
  list_eq_sound :
      ((x y : A) → eq x y ≡ true → x ≡ y) → (xs ys : List A) → list_eq eq xs ys ≡ true → xs ≡ ys
  list_eq_sound h [] [] e = refl
  list_eq_sound h [] (y ∷ ys) e = cc
  list_eq_sound h (x ∷ xs) [] e = cc
  list_eq_sound h (x ∷ xs) (y ∷ ys) e =
      let (p, q) = and_split (eq x y) (list_eq eq xs ys) e in
      ap₂ (λ a b. a ∷ b) (h x y p) (list_eq_sound h xs ys q)

  list_eq_refl : ((x : A) → eq x x ≡ true) → (xs : List A) → list_eq eq xs xs ≡ true
  list_eq_refl h [] = refl
  list_eq_refl h (x ∷ xs) = and_both (h x) (list_eq_refl h xs)

bool_eq_sound : (a b : Bool) → bool_eq a b ≡ true → a ≡ b
bool_eq_sound true b h = sym h
bool_eq_sound false true h = cc
bool_eq_sound false false h = refl

bool_eq_refl : (a : Bool) → bool_eq a a ≡ true
bool_eq_refl true = refl
bool_eq_refl false = refl

pair_eq_sound :
    {B : Type 0} (eq : B → B → Bool)
    → ((x y : B) → eq x y ≡ true → x ≡ y)
    → (x y : String × B) → (str_eq x.0 y.0 && eq x.1 y.1) ≡ true
    → x ≡ y
pair_eq_sound eq h (k, v) (l, w) e =
    let (p, q) = and_split (str_eq k l) (eq v w) e in
    ap₂ (λ a b. (a, b)) ((eq_iff k l).0 p) (h v w q)

pub collection_eq_sound : (a b : Collection) → collection_eq a b ≡ true → a ≡ b
unfolding collection_eq
collection_eq_sound (Collection.strings a) (Collection.strings b) h =
    ap Collection.strings (list_eq_sound str_eq (λ x y. (eq_iff x y).0) a b h)
collection_eq_sound (Collection.flags a) (Collection.flags b) h =
    ap Collection.flags (list_eq_sound _ (pair_eq_sound bool_eq bool_eq_sound) a b h)
collection_eq_sound (Collection.texts a) (Collection.texts b) h =
    ap Collection.texts (list_eq_sound _ (pair_eq_sound str_eq (λ x y. (eq_iff x y).0)) a b h)
collection_eq_sound (Collection.strings a) (Collection.flags b) h = cc
collection_eq_sound (Collection.strings a) (Collection.texts b) h = cc
collection_eq_sound (Collection.flags a) (Collection.strings b) h = cc
collection_eq_sound (Collection.flags a) (Collection.texts b) h = cc
collection_eq_sound (Collection.texts a) (Collection.strings b) h = cc
collection_eq_sound (Collection.texts a) (Collection.flags b) h = cc

pub collection_eq_refl : (a : Collection) → collection_eq a a ≡ true
unfolding collection_eq
collection_eq_refl (Collection.strings a) = list_eq_refl str_eq eq_refl a
collection_eq_refl (Collection.flags a) =
    list_eq_refl _ (λ x. and_both (eq_refl x.0) (bool_eq_refl x.1)) a
collection_eq_refl (Collection.texts a) =
    list_eq_refl _ (λ x. and_both (eq_refl x.0) (eq_refl x.1)) a
