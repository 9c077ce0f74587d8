-- ===== src/Domain/Credential/Laws.antt =====
-- The signature counter over the logins of a credential.
use hsa.Prelude.{ℕ, ◌<◌, List, [], ◌∷◌, ◌≡◌, refl, sym, ap, subst, ◌∙◌, arith}
use hsa.Failure.{Result, ok, err, panic}
use hsa.Domain.Credential.{Credential, set_sign_count}

abbrev set_on : ℕ → Result Credential → Result Credential
set_on n (ok c) = set_sign_count n c
set_on n (err e) = err e
set_on n (panic p) = panic p

-- The counters of successive logins, each set on the credential that the ones before left.
abbrev pub set_all : List ℕ → Result Credential → Result Credential
set_all [] r = r
set_all (n ∷ ns) r = set_all ns (set_on n r)

-- Every counter is greater than the one before.
abbrev pub IsIncreasing : ℕ → List ℕ → Type 0
IsIncreasing m [] = Unit
IsIncreasing m (n ∷ ns) = (m < n) × IsIncreasing n ns

set_sign_count-lt :
    (n : ℕ) (c : Credential) {c' : Credential}
    → 0 < c.sign_count
    → set_sign_count n c ≡ ok c'
    → (c.sign_count < n) × (c'.sign_count ≡ n)
unfolding set_sign_count
set_sign_count-lt n c used h = (ground arith, ground arith)

set_all-err :
    (ns : List ℕ) (r : Result Credential) {c : Credential}
    → set_all ns r ≡ ok c
    → (d : Credential) × (r ≡ ok d)
set_all-err [] (ok c) h = (c, refl)
set_all-err [] (err e) h = absurd cc
set_all-err [] (panic p) h = absurd cc
set_all-err (n ∷ ns) (ok c) h = (c, refl)
set_all-err (n ∷ ns) (err e) h = let (d, k) = set_all-err ns (err e) h in absurd cc
set_all-err (n ∷ ns) (panic p) h = let (d, k) = set_all-err ns (panic p) h in absurd cc

-- Where a credential's counter is in use, the counters that successive logins set without an error
-- increase strictly, from the one that was stored.
pub set_all-IsIncreasing :
    (ns : List ℕ) (c : Credential) {c' : Credential}
    → 0 < c.sign_count
    → set_all ns (ok c) ≡ ok c'
    → IsIncreasing c.sign_count ns
set_all-IsIncreasing [] c used h = tt
set_all-IsIncreasing (n ∷ ns) c used h =
    let (d, set) = set_all-err ns (set_sign_count n c) h in
    let (grown, is_n) = set_sign_count-lt n c used set in
    let rest = set_all-IsIncreasing ns d (omega arith) (ap (set_all ns) (sym set) ∙ h) in
    (grown, subst (λ m. IsIncreasing m ns) is_n rest)
