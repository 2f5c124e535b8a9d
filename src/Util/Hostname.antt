-- ===== src/Util/Hostname.antt =====
-- `GetHostname` of src/distributepki/util/shared.go, with strconv.Itoa written out. An int has at most 19
-- digits, so that 19 rounds are enough.
use distribute_pki.Base.{
  ℕ, zero, suc, ◌/◌, ◌%◌, String, ◌≡◌, refl, none, some, List, [], ◌∷◌, ltb, if◌then◌else◌, nat_eq,
  string_eq, get_elem?,
}
use Prim.Native.String.{◌++◌ as append}

abbrev ten_digits : List String
ten_digits = "0" ∷ "1" ∷ "2" ∷ "3" ∷ "4" ∷ "5" ∷ "6" ∷ "7" ∷ "8" ∷ "9" ∷ []

unfoldable pub digit : ℕ → String
digit n = elim (get_elem? ten_digits n) [ none ↦ "" | some d ↦ d ]

unfoldable pub digits : ℕ → ℕ → String
digits zero n = digit (n % 10)
digits (suc rounds) n =
    let front = digits rounds (n / 10) in
    if ltb n 10 then digit n else append front (digit (n % 10))

unfoldable pub itoa : ℕ → String
itoa n = digits 19 n

unfoldable pub get_hostname : String → ℕ → String
get_hostname host port = append host (append ":" (itoa port))

-- Ports are written as they are read.
get_hostname_run : get_hostname "localhost" 9001 ≡ "localhost:9001"
unfolding get_hostname itoa digits digit
get_hostname_run = refl
