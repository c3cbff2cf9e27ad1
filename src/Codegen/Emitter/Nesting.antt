-- ===== src/Codegen/Emitter/Nesting.antt =====
-- How deep a text is in braces, as far as its literals open and close them.
mod Types
mod Fields
mod Declarations
mod Metadata
mod StructCodec
mod RequestCodec
mod ResponseCodec
mod Client
mod Server
pub mod Sources
use Prim.Native.Char.{code}
use Prim.Native.String as String
use Prim.Native.String.{String}
use hasten.Common.{
  ℕ, zero, suc, ◌≡◌, refl, ◌∙◌, ap, List, [], ◌∷◌, ◌++◌, Option, none, some, ◌==◌, if◌then◌else◌,
}
use hasten.Codegen.Emitter.{Text, literal, computed, concat, write_joined, after_each}

-- A closing brace that has none to close is an error.
abbrev pub closed_by : ℕ → Option ℕ
closed_by zero = none
closed_by (suc depth) = some depth

abbrev pub next_depth : ℕ → ℕ → Option ℕ
next_depth c depth =
    if c == 0x7B then some (suc depth) else if c == 0x7D then closed_by depth else some depth

abbrev pub and_then : Option ℕ → (ℕ → Option ℕ) → Option ℕ
and_then none f = none
and_then (some depth) f = f depth

-- The depth behind a text, which begins at a depth.
unfoldable pub depth_after : String → ℕ → Option ℕ
depth_after String.[] depth = some depth
depth_after (String.◌∷◌ c s) depth = and_then (next_depth (code c) depth) (depth_after s)

unfoldable pub nesting : Text → ℕ → Option ℕ
nesting [] depth = some depth
nesting (literal s ∷ text) depth = and_then (depth_after s depth) (nesting text)
nesting (computed s ∷ text) depth = nesting text depth

-- Whatever the depth is where the text begins, it is the same where the text ends.
abbrev pub Closed : Text → Type 0
Closed text = (depth : ℕ) → nesting text depth ≡ some depth

-- The text opens one brace more than it closes.
abbrev pub Opens : Text → Type 0
Opens text = (depth : ℕ) → nesting text depth ≡ some (suc depth)

-- The text closes one brace more than it opens.
abbrev pub Closes : Text → Type 0
Closes text = (depth : ℕ) → nesting text (suc depth) ≡ some depth

nesting-append :
    (xs ys : Text) (depth : ℕ) → nesting (xs ++ ys) depth ≡ and_then (nesting xs depth) (nesting ys)
unfolding nesting
nesting-append [] ys depth = refl
nesting-append (computed s ∷ xs) ys depth = nesting-append xs ys depth
nesting-append (literal s ∷ xs) ys depth = behind (depth_after s depth) (nesting-append xs ys)
  where
    behind :
        (o : Option ℕ)
        → ((d : ℕ) → nesting (xs ++ ys) d ≡ and_then (nesting xs d) (nesting ys))
        → and_then o (nesting (xs ++ ys)) ≡ and_then (and_then o (nesting xs)) (nesting ys)
    behind none h = refl
    behind (some d) h = h d

-- What follows a text begins at the depth where the text ends.
pub onward :
    (text rest : Text) (depth reached : ℕ) (after : Option ℕ)
    → nesting text depth ≡ some reached
    → nesting rest reached ≡ after
    → nesting (text ++ rest) depth ≡ after
onward text rest depth reached after leads next =
    nesting-append text rest depth ∙ ap (λ o. and_then o (nesting rest)) leads ∙ next

-- A closed text changes nothing for what follows it.
pub through :
    (text rest : Text) (depth : ℕ) (after : Option ℕ)
    → Closed text
    → nesting rest depth ≡ after
    → nesting (text ++ rest) depth ≡ after
through text rest depth after closed next = onward text rest depth depth after (closed depth) next

pub Closed-append : (xs ys : Text) → Closed xs → Closed ys → Closed (xs ++ ys)
Closed-append xs ys p q depth = through xs ys depth _ p (q depth)

module _ {A : Type 0} (emit : A → Text) (closed : (x : A) → Closed (emit x)) where
  pub Closed-concat : (xs : List A) → Closed (concat emit xs)
  unfolding concat nesting
  Closed-concat [] depth = refl
  Closed-concat (x ∷ xs) depth = through (emit x) _ depth _ (closed x) (Closed-concat xs depth)

  module _ (delimiter : Text) (delimited : Closed delimiter) where
    Closed-after_each : (xs : List A) → Closed (after_each delimiter emit xs)
    unfolding after_each nesting
    Closed-after_each [] depth = refl
    Closed-after_each (x ∷ xs) depth =
        through delimiter _ depth _ delimited
          (through (emit x) _ depth _ (closed x) (Closed-after_each xs depth))

    pub Closed-write_joined : (xs : List A) → Closed (write_joined xs emit delimiter)
    unfolding write_joined nesting
    Closed-write_joined [] depth = refl
    Closed-write_joined (x ∷ xs) depth =
        through (emit x) _ depth _ (closed x) (Closed-after_each xs depth)
