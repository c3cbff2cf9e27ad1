-- ===== src/Frontend/Semantic/Order.antt =====
-- The order of the files, which is that of their paths, makes no difference to the verdict.
use text.Mathlib.Text.{◌==◌ as ◌is◌}
use mathlib.Core.Logic.{∥∥₁_elim}
use mathlib.Core.Bool.{Bool-set}
use mathlib.Core.List.{Perm, Permᴰ}
use mathlib.Core.List.Permᴰ
use hasten.Common.Texts.{is_comm, never_both, if_swap}
use hasten.Common.Bools.{all, left_of_both, right_of_both, false_of_not}
use hasten.Common.{
  String, ◌≡◌, refl, sym, ◌∙◌, ap, subst, List, [], ◌∷◌, ◌++◌, map, Bool, true, false, not, ◌&&◌,
  ◌||◌, Bool-cases, inl, inr,
}
use hasten.Frontend.Program.{SourceFile, Diagnostic, has_errors}
use hasten.Frontend.Semantic.{DeclInfo, find}
use hasten.Frontend.Semantic.Passes.{is_in, module_name_of}
use hasten.Frontend.Semantic.Validator.{validator, run}
use hasten.Frontend.Semantic.Names.{distinct}
use hasten.Frontend.Semantic.Verdict.{
  Entry, entries_of, entries, entry_key, entry_info, declared, valid_declaration, valid_program,
}
use hasten.Frontend.Semantic.Agree.{all-cong}
use hasten.Frontend.Semantic.Run.{valid_declaration-agree, has_errors-run}

swap_middle : {A : Type 0} (xs ys zs : List A) → Permᴰ (xs ++ (ys ++ zs)) (ys ++ (xs ++ zs))
swap_middle [] ys zs = Permᴰ.refl _
swap_middle (x ∷ xs) ys zs =
    Permᴰ.trans (Permᴰ.cons refl (swap_middle xs ys zs)) (to_front x ys (xs ++ zs))
  where
    to_front : {A : Type 0} (x : A) (ys zs : List A) → Permᴰ (x ∷ (ys ++ zs)) (ys ++ (x ∷ zs))
    to_front x [] zs = Permᴰ.refl _
    to_front x (y ∷ ys) zs = Permᴰ.trans (Permᴰ.swap refl refl) (Permᴰ.cons refl (to_front x ys zs))

-- To exchange the first two items it is enough to compare the two orders of the same items.
swap_at :
    {A B : Type 0} (f : List A → B) {a b a' b' : A} {l : List A}
    → a ≡ b'
    → b ≡ a'
    → f (a ∷ b ∷ l) ≡ f (b ∷ a ∷ l)
    → f (a ∷ b ∷ l) ≡ f (a' ∷ b' ∷ l)
swap_at f {a = a} {a' = a'} {l = l} d e swapped =
    swapped ∙ ap (λ x. f (x ∷ a ∷ l)) e ∙ ap (λ x. f (a' ∷ x ∷ l)) d

map-Perm : {A B : Type 0} (f : A → B) {xs ys : List A} → Permᴰ xs ys → Permᴰ (map f xs) (map f ys)
map-Perm f Permᴰ.nil = Permᴰ.nil
map-Perm f (Permᴰ.cons e p) = Permᴰ.cons (ap f e) (map-Perm f p)
map-Perm f (Permᴰ.swap d e) = Permᴰ.swap (ap f d) (ap f e)
map-Perm f (Permᴰ.trans p q) = Permᴰ.trans (map-Perm f p) (map-Perm f q)

entries-Perm : {xs ys : List SourceFile} → Permᴰ xs ys → Permᴰ (entries xs) (entries ys)
unfolding entries
entries-Perm Permᴰ.nil = Permᴰ.nil
entries-Perm (Permᴰ.cons {a = a} {l₁ = xs} {l₂ = ys} e p) =
    subst (λ (c : SourceFile). Permᴰ (entries (a ∷ xs)) (entries (c ∷ ys))) e
      (Permᴰ.append_left (entries_of a a.syntax.decls) (entries-Perm p))
entries-Perm (Permᴰ.swap {a = a} {b = b} {a' = a'} {l = l} d e) =
    subst (λ (c : SourceFile). Permᴰ (entries (a ∷ b ∷ l)) (entries (a' ∷ c ∷ l))) d
      (subst (λ (c : SourceFile). Permᴰ (entries (a ∷ b ∷ l)) (entries (c ∷ a ∷ l))) e
        (swap_middle (entries_of a a.syntax.decls) (entries_of b b.syntax.decls) (entries l)))
entries-Perm (Permᴰ.trans p q) = Permᴰ.trans (entries-Perm p) (entries-Perm q)

or_swap : (a b c : Bool) → (a || (b || c)) ≡ (b || (a || c))
or_swap true true c = refl
or_swap true false c = refl
or_swap false b c = refl

is_in-Perm : (k : String) {xs ys : List String} → Permᴰ xs ys → is_in k xs ≡ is_in k ys
unfolding is_in
is_in-Perm k Permᴰ.nil = refl
is_in-Perm k (Permᴰ.cons e p) = rw (e, is_in-Perm k p) refl
is_in-Perm k (Permᴰ.swap {a = a} {b = b} {l = l} d e) =
    swap_at (is_in k) d e (or_swap (a is k) (b is k) (is_in k l))
is_in-Perm k (Permᴰ.trans p q) = is_in-Perm k p ∙ is_in-Perm k q

distinct_algebra :
    (s h k d : Bool) → (not (s || h) && (not k && d)) ≡ (not (s || k) && (not h && d))
distinct_algebra true h k d = refl
distinct_algebra false true true d = refl
distinct_algebra false true false d = refl
distinct_algebra false false true d = refl
distinct_algebra false false false d = refl

distinct-Perm : {xs ys : List String} → Permᴰ xs ys → distinct xs ≡ distinct ys
unfolding distinct is_in
distinct-Perm Permᴰ.nil = refl
distinct-Perm (Permᴰ.cons {b = b} e p) = rw (e, is_in-Perm b p, distinct-Perm p) refl
distinct-Perm (Permᴰ.swap {a = a} {b = b} {l = l} d e) =
    swap_at distinct d e
      (rw (is_comm a b) (distinct_algebra (b is a) (is_in a l) (is_in b l) (distinct l)))
distinct-Perm (Permᴰ.trans p q) = distinct-Perm p ∙ distinct-Perm q

and_swap : (a b c : Bool) → (a && (b && c)) ≡ (b && (a && c))
and_swap true b c = refl
and_swap false true c = refl
and_swap false false c = refl

all-Perm : {A : Type 0} (f : A → Bool) {xs ys : List A} → Permᴰ xs ys → all f xs ≡ all f ys
unfolding all
all-Perm f Permᴰ.nil = refl
all-Perm f (Permᴰ.cons e p) = rw (e, all-Perm f p) refl
all-Perm f (Permᴰ.swap {a = a} {b = b} {l = l} d e) =
    swap_at (all f) d e (and_swap (f a) (f b) (all f l))
all-Perm f (Permᴰ.trans p q) = all-Perm f p ∙ all-Perm f q

no_equal : (s t : Bool) → (s || t) ≡ false → s ≡ false
no_equal true t h = h
no_equal false t h = refl

module _ {V : Type 0} where
  key_of : String × V → String
  key_of entry = entry.0

  -- Where no key repeats, what is found does not depend on the order.
  find-Perm :
      (k : String) {xs ys : List (String × V)}
      → Permᴰ xs ys
      → distinct (map key_of xs) ≡ true
      → find k xs ≡ find k ys
  unfolding find distinct is_in key_of
  find-Perm k Permᴰ.nil h = refl
  find-Perm k (Permᴰ.cons {a = a} {l₁ = l} e p) h =
      rw
        (
          e,
          find-Perm k p
              (right_of_both (not (is_in a.0 (map key_of l))) (distinct (map key_of l)) h),
        )
        refl
  find-Perm k (Permᴰ.swap {a = a} {b = b} {l = l} d e) h = swap_at (find k) d e (
      if_swap (a.0 is k) (b.0 is k) _ _ (find k l) (
        never_both a.0 b.0 k (
          is_comm a.0 b.0
          ∙ no_equal (b.0 is a.0) (is_in a.0 (map key_of l))
              (false_of_not (b.0 is a.0 || is_in a.0 (map key_of l)) (left_of_both _ _ h)))))
  find-Perm k (Permᴰ.trans p q) h =
      find-Perm k p h ∙ find-Perm k q (sym (distinct-Perm (map-Perm key_of p)) ∙ h)

declared-keys :
    (files : List SourceFile) → map key_of (declared files) ≡ map entry_key (entries files)
unfolding key_of
declared-keys files = go (entries files)
  where
    go :
        (es : List Entry)
        → map (λ (e : String × DeclInfo). e.0) (map (λ e. (entry_key e, entry_info e)) es)
          ≡ map entry_key es
    go [] = refl
    go (e ∷ es) = ap (λ (t : List String). entry_key e ∷ t) (go es)

and_nothing : (a d b : Bool) → d ≡ false → ((a && d) && b) ≡ false
and_nothing true d b none_left = rw none_left refl
and_nothing false d b none_left = refl

-- A program is as valid in any order of its files.
valid_program-Perm : {xs ys : List SourceFile} → Permᴰ xs ys → valid_program xs ≡ valid_program ys
unfolding valid_program
valid_program-Perm {xs} {ys} p = elim (Bool-cases (distinct (map entry_key (entries xs)))) [
  | inr repeated ↦ and_nothing _ _ _ repeated ∙ sym (and_nothing _ _ _ (sym keys_same ∙ repeated))
  | inl once ↦
      rw
        (
          names_same,
          keys_same,
          all-cong (λ file. all (valid_declaration (declared xs) file) file.syntax.decls)
              (λ file. all (valid_declaration (declared ys) file) file.syntax.decls)
              (λ file.
                all-cong _ _ (valid_declaration-agree (declared xs) ys (agree once) file)
                  file.syntax.decls)
              xs,
          all-Perm (λ file. all (valid_declaration (declared ys) file) file.syntax.decls) p,
        )
        refl
]
  where
    names_same : distinct (map module_name_of xs) ≡ distinct (map module_name_of ys)
    names_same = distinct-Perm (map-Perm module_name_of p)

    keys_same : distinct (map entry_key (entries xs)) ≡ distinct (map entry_key (entries ys))
    keys_same = distinct-Perm (map-Perm entry_key (entries-Perm p))

    agree :
        distinct (map entry_key (entries xs)) ≡ true
        → (key : String) → find key (declared xs) ≡ find key (declared ys)
    agree once key =
        find-Perm key (map-Perm (λ e. (entry_key e, entry_info e)) (entries-Perm p))
          (ap distinct (declared-keys xs) ∙ once)

-- Whether the validator reports an error does not depend on the order of the files.
pub has_errors-run_order :
    (xs ys : List SourceFile) (sink : List Diagnostic)
    → Perm xs ys
    → has_errors (run validator record { files = xs } sink)
      ≡ has_errors (run validator record { files = ys } sink)
has_errors-run_order xs ys sink same =
    has_errors-run _ sink
    ∙ ∥∥₁_elim same (Bool-set _ _)
        (λ p. ap (λ (b : Bool). has_errors sink || not b) (valid_program-Perm p))
    ∙ sym (has_errors-run _ sink)
