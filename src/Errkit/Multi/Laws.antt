-- ===== src/Errkit/Multi/Laws.antt =====
-- What `Append` keeps of the errors that it is given.
use hsa.Prelude.{ℕ, Option, none, some, Bool, false, List, [], ◌∷◌, ◌||◌, ◌≡◌, refl, ap, ◌∙◌, arith}
use hsa.Errkit.Multi.{
  Tree, Trees, leaf, wrapping, multi, nil_multi, done, also, is, any_is, as_type, as_type_any, join,
  flatten, append_one, append_each, append_to, append,
}

pub any_is-join : (ds es : Trees) (t : ℕ) → any_is (join ds es) t ≡ (any_is ds t || any_is es t)
unfolding any_is join
any_is-join done es t = refl
any_is-join (also e ds) es t = ground (arith, any_is-join ds es t)

-- The error is a `*Error`, or has none anywhere below it.
abbrev pub IsPlain : Tree → Type 0
IsPlain (leaf n) = Unit
IsPlain (wrapping n es) = as_type_any es ≡ none
IsPlain (multi f es) = Unit
IsPlain nil_multi = Unit

abbrev pub AllPlain : List (Option Tree) → Type 0
AllPlain [] = Unit
AllPlain (none ∷ es) = AllPlain es
AllPlain (some e ∷ es) = IsPlain e × AllPlain es

abbrev pub option_is : Option Tree → ℕ → Bool
option_is none t = false
option_is (some e) t = is e t

abbrev pub list_is : List (Option Tree) → ℕ → Bool
list_is [] t = false
list_is (e ∷ es) t = option_is e t || list_is es t

or_false :
    (acc : Trees) (e : Tree) (t : ℕ)
    → (any_is acc t || any_is (also e done) t) ≡ (any_is acc t || is e t)
unfolding any_is
or_false acc e t = ground arith

append_one_lem :
    (acc : Trees) (e : Tree) (t : ℕ)
    → IsPlain e
    → any_is (append_one acc (some e)) t ≡ (any_is acc t || is e t)
unfolding as_type is any_is
append_one_lem acc (leaf n) t h = ground (arith, any_is-join acc (also (leaf n) done) t)
append_one_lem acc (wrapping n es) t h =
    ap (λ o. any_is (flatten acc (wrapping n es) o) t) h
    ∙ any_is-join acc (also (wrapping n es) done) t
    ∙ or_false acc (wrapping n es) t
append_one_lem acc (multi f es) t h = any_is-join acc es t
append_one_lem acc nil_multi t h = ground arith

any_is-append_each :
    (acc : Trees) (es : List (Option Tree)) (t : ℕ)
    → AllPlain es
    → any_is (append_each acc es) t ≡ (any_is acc t || list_is es t)
unfolding append_each
any_is-append_each acc [] t h = ground arith
any_is-append_each acc (none ∷ es) t h = any_is-append_each acc es t h
any_is-append_each acc (some e ∷ es) t h =
    ground
      (arith, any_is-append_each (append_one acc (some e)) es t h.1, append_one_lem acc e t h.0)

-- Where the errors that `Append` is given hold no `*Error` below another error, the result is every
-- error that one of them is, and no other.
pub append_is :
    (e : Tree) (es : List (Option Tree)) (t : ℕ)
    → IsPlain e
    → AllPlain es
    → any_is (append (some e) es).errors t ≡ (is e t || list_is es t)
unfolding append as_type is any_is
append_is (leaf n) es t h hs = any_is-append_each done (some (leaf n) ∷ es) t (tt, hs)
append_is (wrapping n ds) es t h hs =
    ap (λ o. any_is (append_to (wrapping n ds) es o).errors t) h
    ∙ any_is-append_each done (some (wrapping n ds) ∷ es) t (h, hs)
append_is (multi f ds) es t h hs = any_is-append_each ds es t hs
append_is nil_multi es t h hs = any_is-append_each done es t hs

-- A `*Error` below another error takes its place: of an error that wraps one, `Append` keeps what
-- the `*Error` holds, and drops the error around it.
pub append_drops_wrapper :
    (n f : ℕ) (es : Trees) → (append (some (wrapping n (also (multi f es) done))) []).errors ≡ es
unfolding append as_type append_each
append_drops_wrapper n f es = refl
