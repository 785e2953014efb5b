-- ===== src/Prodcons/Buffer/Text.antt =====
-- What `strncpy` keeps of a string.
use linux_learning_by_doing.Prelude.{ℕ, zero, suc, ◌≤◌, ◌≡◌, refl, ap, List, [], ◌∷◌, length, arith}
use linux_learning_by_doing.Prodcons.Buffer.{strncpy, c_string}

pub length-strncpy : (n : ℕ) (src : List ℕ) → length (strncpy n src) ≡ n
unfolding strncpy
length-strncpy zero src = refl
length-strncpy (suc n) [] = ap suc (length-strncpy n [])
length-strncpy (suc n) (zero ∷ src) = ap suc (length-strncpy n [])
length-strncpy (suc n) (suc c ∷ src) = ap suc (length-strncpy n src)

strncpy-nil : (n : ℕ) → strncpy n (strncpy n []) ≡ strncpy n []
unfolding strncpy
strncpy-nil zero = refl
strncpy-nil (suc n) = refl

-- Copying a copy gives the same array.
pub strncpy-strncpy : (n : ℕ) (src : List ℕ) → strncpy n (strncpy n src) ≡ strncpy n src
unfolding strncpy
strncpy-strncpy zero src = refl
strncpy-strncpy (suc n) [] = refl
strncpy-strncpy (suc n) (zero ∷ src) = refl
strncpy-strncpy (suc n) (suc c ∷ src) = ap (λ t. suc c ∷ t) (strncpy-strncpy n src)

c_string-strncpy_nil : (n : ℕ) → c_string (strncpy n []) ≡ []
unfolding strncpy
c_string-strncpy_nil zero = refl
c_string-strncpy_nil (suc n) = refl

-- A string that fits survives the copy.
pub c_string-strncpy :
    (n : ℕ) (src : List ℕ) → length (c_string src) ≤ n → c_string (strncpy n src) ≡ c_string src
unfolding strncpy
c_string-strncpy zero [] h = refl
c_string-strncpy zero (zero ∷ src) h = refl
c_string-strncpy zero (suc c ∷ src) h = absurd (omega arith)
c_string-strncpy (suc n) [] h = refl
c_string-strncpy (suc n) (zero ∷ src) h = refl
c_string-strncpy (suc n) (suc c ∷ src) h =
    ap (λ t. suc c ∷ t) (c_string-strncpy n src (omega arith))
