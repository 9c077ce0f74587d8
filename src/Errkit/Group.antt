-- ===== src/Errkit/Group.antt =====
-- pkg/errkit/group.go: functions that run at once, and what is collected of them. A function is
-- what it ends with; the functions of `Go` stand in the order in which they end, since `Add` is
-- under the mutex.
pub mod Laws
use hsa.Prelude.{ℕ, Option, none, some, List, [], ◌∷◌, ◌++◌}
use hsa.Errkit.Multi.{Tree, Trees, leaf, wrapping, multi, nil_multi, done, also, Multi, append}

-- How a function ends: with an error or nil, or with a panic whose value is an error or is not.
pub data Outcome : Type 0 where
  returned : Option Tree → Outcome
  panicked_with : Tree → Outcome
  panicked : Outcome

pub record Group : Type 0 where
  pub err : Option Multi
  pub finally : List (Option Tree)

abbrev pub new_group : Group
new_group = record { err = none; finally = [] }

-- `g.err` as an `error`, which is never nil.
abbrev pub as_error : Option Multi → Tree
as_error none = nil_multi
as_error (some m) = multi m.error_format m.errors

-- `Add`
abbrev pub add : Option Tree → Group → Group
add none g = g
add (some e) g = record g { err = some (append (some (as_error g.err)) (some e ∷ [])) }

-- `NewPanicError`, with the identity of the new pointer.
abbrev pub new_panic_error : ℕ → Outcome → Option Tree
new_panic_error n (returned r) = r
new_panic_error n (panicked_with e) = some (wrapping n (also e done))
new_panic_error n panicked = some (leaf n)

-- What `Go` does once its function has ended.
unfoldable pub go : (pointer : ℕ) → Outcome → Group → Group
go pointer o g = add (new_panic_error pointer o) g

-- Every function of `Go`, with the pointer that its panic would get.
unfoldable pub go_all : List (ℕ × Outcome) → Group → Group
go_all [] g = g
go_all ((n, o) ∷ os) g = go_all os (go n o g)

unfoldable pub finally_do : Option Tree → Group → Group
finally_do r g = record g { finally = g.finally ++ r ∷ [] }

unfoldable pub add_all : List (Option Tree) → Group → Group
add_all [] g = g
add_all (r ∷ rs) g = add_all rs (add r g)

-- `Wait`, once the functions of `Go` have ended: what it returns, and the group.
unfoldable pub wait : Group → Option Multi × Group
wait g = let last = add_all g.finally (record g { finally = [] }) in (last.err, last)
