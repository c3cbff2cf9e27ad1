-- ===== src/Frontend/Semantic/Index.antt =====
-- The two indices: a pass that adds entries where the key is new, and reports an error where it is
-- taken.
use text.Mathlib.Text.{◌==◌ as ◌is◌}
use text.Mathlib.TextEquality.{eq_iff}
use mathlib.Core.Bool.{false≢true}
use hasten.Common.{
  is_some, String, ◌≡◌, refl, sym, ◌∙◌, ap, List, [], ◌∷◌, ◌++◌, append_assoc, append-nil, map,
  Bool, true, false, not, ◌&&◌, ◌||◌, Option, none, some, Option-cases, Bool-cases, inl, inr,
  if◌then◌else◌,
}
use hasten.Frontend.Program.{has_errors}
use hasten.Frontend.Ids.Laws.{or_false}
use hasten.Frontend.Semantic.{Context, find}
use hasten.Frontend.Semantic.Passes.{is_in, each}
use hasten.Frontend.Semantic.Names.{distinct, apart, apart-cons, apart-append, seen_algebra}

module _ {ℓ} {V : Type ℓ} where
  abbrev pub keys : List (String × V) → List String
  keys [] = []
  keys ((k, v) ∷ entries) = k ∷ keys entries

  keys-append : (xs ys : List (String × V)) → keys (xs ++ ys) ≡ keys xs ++ keys ys
  keys-append [] ys = refl
  keys-append ((k, v) ∷ xs) ys = ap (λ (t : List String). k ∷ t) (keys-append xs ys)

  -- What is found is a key, and the other way around.
  is_in-keys :
      (key : String) (entries : List (String × V))
      → is_in key (keys entries) ≡ is_some (find key entries)
  unfolding find is_in
  is_in-keys key [] = refl
  is_in-keys key ((k, w) ∷ entries) = elim (Bool-cases (k is key)) [
    | inl same ↦ rw same refl
    | inr other ↦ rw other (is_in-keys key entries)
  ]

  -- An entry whose key is not looked for, and one behind another with its key.
  find-other :
      (key k : String) (v : V) (xs ys : List (String × V))
      → (k is key) ≡ false
      → find key (xs ++ ((k, v) ∷ ys)) ≡ find key (xs ++ ys)
  unfolding find
  find-other key k v [] ys other = rw other refl
  find-other key k v ((k', w) ∷ xs) ys other =
      ap (λ (o : Option V). if k' is key then some w else o) (find-other key k v xs ys other)

  find-taken :
      (key k : String) (v w : V) (xs ys : List (String × V))
      → find k xs ≡ some w
      → find key (xs ++ ((k, v) ∷ ys)) ≡ find key (xs ++ ys)
  unfolding find
  find-taken key k v w [] ys taken = absurd (false≢true (ap is_some taken))
  find-taken key k v w ((k', u) ∷ xs) ys taken = elim (Bool-cases (k' is k)) [
    | inr other ↦
        ap (λ (o : Option V). if k' is key then some u else o)
          (find-taken key k v w xs ys (sym (rw (other, find) refl) ∙ taken))
    | inl same ↦ elim (Bool-cases (k' is key)) [
      | inl here ↦ rw here refl
      | inr elsewhere ↦ rw elsewhere (
          find-other key k v xs ys
            (sym (ap (λ (t : String). t is key) ((eq_iff k' k).0 same)) ∙ elsewhere))
    ]
  ]

-- What a step of such a pass does, for the key and the value of what it is given.
pub record Emplaces {ℓ κ} {A : Type ℓ} {V : Type κ} (key : A → String) (value : A → V)
    (index : Context → List (String × V)) (step : A → Context → Context) : Type (ℓ ⊔ κ) where
  pub fresh :
      (a : A) (context : Context)
      → find (key a) (index context) ≡ none
      → (index (step a context) ≡ index context ++ ((key a, value a) ∷ []))
        × (has_errors (step a context).diagnostics ≡ has_errors context.diagnostics)
  pub taken :
      (a : A) (context : Context) (v : V)
      → find (key a) (index context) ≡ some v
      → (index (step a context) ≡ index context)
        × (has_errors (step a context).diagnostics ≡ (has_errors context.diagnostics || true))

module _ {ℓ κ} {A : Type ℓ} {V : Type κ} {key : A → String} {value : A → V}
    {index : Context → List (String × V)} {step : A → Context → Context}
    (laws : Emplaces key value index step) where
  abbrev pub entry_of : A → String × V
  entry_of a = (key a, value a)

  -- The index finds what a search through all the entries finds, the first one with the key.
  pub find-each :
      (k : String) (xs : List A) (context : Context)
      → find k (index (each step xs context)) ≡ find k (index context ++ map entry_of xs)
  unfolding each
  find-each k [] context = rw (append-nil (index context)) refl
  find-each k (x ∷ xs) context = elim (Option-cases (find (key x) (index context))) [
    | inl free ↦
        find-each k xs (step x context)
        ∙ ap (λ (i : List (String × V)). find k (i ++ map entry_of xs))
            (laws.fresh x context free).0
        ∙ ap (λ (i : List (String × V)). find k i)
            (append_assoc (index context) (entry_of x ∷ []) (map entry_of xs))
    | inr (v, held) ↦
        find-each k xs (step x context)
        ∙ ap (λ (i : List (String × V)). find k (i ++ map entry_of xs))
            (laws.taken x context v held).0
        ∙ sym (find-taken k (key x) (value x) v (index context) (map entry_of xs) held)
  ]

  -- It adds an error exactly if a key is among those there were, or among those that follow.
  pub has_errors-index :
      (xs : List A) (context : Context)
      → has_errors (each step xs context).diagnostics ≡ (
          has_errors context.diagnostics
          || not (apart (keys (index context)) (map key xs) && distinct (map key xs)))
  unfolding each apart distinct
  has_errors-index [] context = sym (or_false (has_errors context.diagnostics))
  has_errors-index (x ∷ xs) context = elim (Option-cases (find (key x) (index context))) [
    | inl free ↦
        has_errors-index xs (step x context)
        ∙ rw
            (
              (laws.fresh x context free).0,
              (laws.fresh x context free).1,
              keys-append (index context) (entry_of x ∷ []),
              apart-append (key x) (keys (index context)) (map key xs),
              apart-cons (key x) (keys (index context)) (map key xs),
              is_in-keys (key x) (index context),
              free,
            )
            (ap (λ (b : Bool). has_errors context.diagnostics || not b)
              (seen_algebra false (apart (keys (index context)) (map key xs))
                (is_in (key x) (map key xs)) (distinct (map key xs))))
    | inr (v, held) ↦
        has_errors-index xs (step x context)
        ∙ rw ((laws.taken x context v held).1, is_in-keys (key x) (index context), held)
            (or_true (has_errors context.diagnostics) _)
  ]
    where
      or_true : (e b : Bool) → ((e || true) || b) ≡ (e || true)
      or_true true b = refl
      or_true false b = refl
