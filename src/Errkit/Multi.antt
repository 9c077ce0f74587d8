-- ===== src/Errkit/Multi.antt =====
-- pkg/errkit/error.go: an error that holds many. An error value is the tree that `errors.Is` and
-- `errors.As` walk, first a node and then what its `Unwrap` returns, from left to right.
pub mod Laws
use hsa.Prelude.{ℕ, Option, none, some, Bool, true, false, List, [], ◌∷◌, ◌==◌, ◌||◌}

-- A non-nil `error`. A number is the identity of the pointer that `errors.Is` compares.
mutual
  pub data Tree : Type 0 where
    -- An error without `Unwrap`.
    leaf : ℕ → Tree
    -- `fmt.Errorf` with `%w`, `errors.Join`, or a `PanicError` with the error that was the panic's.
    wrapping : ℕ → Trees → Tree
    -- A `*Error`, with the identity of its format function, 0 where that is nil.
    multi : (error_format : ℕ) → (errors : Trees) → Tree
    -- A nil `*Error` in an `error`, which is not a nil `error`.
    nil_multi : Tree

  pub data Trees : Type 0 where
    done : Trees
    also : Tree → Trees → Trees

-- `Error`
pub record Multi : Type 0 where
  pub errors : Trees
  pub error_format : ℕ

unfoldable mutual
  -- `errors.Is`
  pub is : Tree → ℕ → Bool
  is (leaf n) t = n == t
  is (wrapping n es) t = n == t || any_is es t
  is (multi f es) t = any_is es t
  is nil_multi t = false

  pub any_is : Trees → ℕ → Bool
  any_is done t = false
  any_is (also e es) t = is e t || any_is es t

abbrev pub or_else : {A : Type 0} → Option A → Option A → Option A
or_else none o = o
or_else (some a) o = some a

-- `errors.AsType[*Error]`: the first `*Error` of the tree, which may be a nil pointer.
unfoldable mutual
  pub as_type : Tree → Option (Option Multi)
  as_type (leaf n) = none
  as_type (wrapping n es) = as_type_any es
  as_type (multi f es) = some (some (record { errors = es; error_format = f }))
  as_type nil_multi = some none

  pub as_type_any : Trees → Option (Option Multi)
  as_type_any done = none
  as_type_any (also e es) = or_else (as_type e) (as_type_any es)

-- Go's `append` of two slices.
unfoldable pub join : Trees → Trees → Trees
join done es = es
join (also e ds) es = also e (join ds es)

abbrev pub flatten : Trees → Tree → Option (Option Multi) → Trees
flatten acc e none = join acc (also e done)
flatten acc e (some none) = acc
flatten acc e (some (some m)) = join acc m.errors

-- One turn of the loop of `Append`.
abbrev pub append_one : Trees → Option Tree → Trees
append_one acc none = acc
append_one acc (some e) = flatten acc e (as_type e)

unfoldable pub append_each : Trees → List (Option Tree) → Trees
append_each acc [] = acc
append_each acc (e ∷ es) = append_each (append_one acc e) es

abbrev pub into : Trees → (format : ℕ) → List (Option Tree) → Multi
into acc format es = record { errors = append_each acc es; error_format = format }

abbrev pub append_to : Tree → List (Option Tree) → Option (Option Multi) → Multi
append_to e es (some none) = into done 0 es
append_to e es (some (some m)) = into m.errors m.error_format es
append_to e es none = into done 0 (some e ∷ es)

-- `Append`, whose arguments may be nil.
unfoldable pub append : Option Tree → List (Option Tree) → Multi
append none es = into done 0 es
append (some e) es = append_to e es (as_type e)
