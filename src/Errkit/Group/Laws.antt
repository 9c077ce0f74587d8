-- ===== src/Errkit/Group/Laws.antt =====
-- What `Wait` reports of the functions of a group.
use hsa.Prelude.{ℕ, Option, none, some, Bool, true, false, List, [], ◌∷◌, ◌||◌, ◌≡◌, refl, arith}
use hsa.Errkit.Multi.{Tree, multi, nil_multi, Multi, is, any_is}
use hsa.Errkit.Multi.Laws.{AllPlain, list_is, append_is}
use hsa.Errkit.Group.{Outcome, Group, add, new_panic_error, finally_do, add_all}

abbrev pub result_is : Option Multi → ℕ → Bool
result_is none t = false
result_is (some m) t = any_is m.errors t

-- What each function ended with, a panic as the error that is made of it.
abbrev pub ends : List (ℕ × Outcome) → List (Option Tree)
ends [] = []
ends ((n, o) ∷ os) = new_panic_error n o ∷ ends os

abbrev pub is_some : {A : Type 0} → Option A → Bool
is_some none = false
is_some (some a) = true

abbrev pub any_failed : List (Option Tree) → Bool
any_failed [] = false
any_failed (e ∷ es) = is_some e || any_failed es

-- What a group reports of these errors, beside what it has.
abbrev Reports : Group → Group → List (Option Tree) → ℕ → Type 0
Reports before after es t =
    (result_is after.err t ≡ (result_is before.err t || list_is es t))
    × (is_some after.err ≡ (is_some before.err || any_failed es))

add-Reports :
    (e : Option Tree) (m : Option Multi) (fs : List (Option Tree)) (t : ℕ)
    → AllPlain (e ∷ [])
    → let g : Group = record { err = m; finally = fs } in Reports g (add e g) (e ∷ []) t
unfolding is
add-Reports none m fs t h = ground arith
add-Reports (some e) none fs t h = (append_is nil_multi (some e ∷ []) t tt h, refl)
add-Reports (some e) (some m) fs t h =
    (append_is (multi m.error_format m.errors) (some e ∷ []) t tt h, refl)

pub add_all-Reports :
    (es : List (Option Tree)) (g : Group) (t : ℕ) → AllPlain es → Reports g (add_all es g) es t
unfolding add_all
add_all-Reports [] g t h = ground arith
add_all-Reports (none ∷ es) g t h = add_all-Reports es g t h
add_all-Reports (some e ∷ es) g t h =
    let first = add-Reports (some e) g.err g.finally t (h.0, tt) in
    let rest = add_all-Reports es (add (some e) g) t h.1 in
    ground (arith, first.0, first.1, rest.0, rest.1)

-- Calls of `Finally`, one after the other.
pub finally_all : List (Option Tree) → Group → Group
finally_all [] g = g
finally_all (f ∷ fs) g = finally_all fs (finally_do f g)
