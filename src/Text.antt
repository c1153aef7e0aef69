-- ===== src/Text.antt =====
-- Go's strings as their bytes, and what the program uses of `strings` and of `net.SplitHostPort`.
pub mod Split
use Prim.Native.Char.{code}
use Prim.Native.String.{String}
use go_load_balancer.Prelude.{
  ℕ, suc, ◌≢◌, ◌⊎◌, inl, inr, Bool-cases, ◌-◌, ◌≡◌, refl, ◌↔◌, Bool, true, false, ◌&&◌, ◌||◌, List,
  [], ◌∷◌, ◌++◌, Option, none, some, arith, ◌==◌, if◌then◌else◌, length, take, drop,
}

abbrev pub Str : Type 0
Str = List ℕ

-- The bytes of an ASCII literal.
abbrev pub str : String → Str
str String.[] = []
str (String.◌∷◌ c s) = code c ∷ str s

unfoldable pub eqs : Str → Str → Bool
eqs [] [] = true
eqs (x ∷ xs) (y ∷ ys) = x == y && eqs xs ys
eqs _ _ = false

pub eqs→eq : (s t : Str) → eqs s t ≡ true → s ≡ t
unfolding eqs
eqs→eq [] [] h = refl
eqs→eq (x ∷ xs) (y ∷ ys) h = ground (arith, eqs→eq xs ys)
eqs→eq [] (y ∷ ys) h = ground arith
eqs→eq (x ∷ xs) [] h = ground arith

pub eqs_refl : (s : Str) → eqs s s ≡ true
unfolding eqs
eqs_refl [] = refl
eqs_refl (x ∷ xs) = ground (arith, eqs_refl xs)

pub eqs_iff : (s t : Str) → (eqs s t ≡ true) ↔ (s ≡ t)
eqs_iff s t = (eqs→eq s t, λ e. rw e (eqs_refl t))

pub differ : (s t : Str) → s ≢ t → eqs s t ≡ false
differ s t h = elim (Bool-cases (eqs s t)) [
  | inl same ↦ absurd (h ((eqs_iff s t).0 same))
  | inr other ↦ other
]

-- `s == ""` for a string `s`.
unfoldable pub is_empty : Str → Bool
is_empty [] = true
is_empty (c ∷ s) = false

-- strings.HasPrefix
unfoldable pub has_prefix : Str → Str → Bool
has_prefix s [] = true
has_prefix [] (p ∷ ps) = false
has_prefix (c ∷ s) (p ∷ ps) = c == p && has_prefix s ps

-- strings.TrimPrefix
unfoldable pub trim_prefix : Str → Str → Str
trim_prefix s p = if has_prefix s p then drop (length p) s else s

pub has_prefix-append : (p s : Str) → has_prefix (p ++ s) p ≡ true
unfolding has_prefix
has_prefix-append [] s = refl
has_prefix-append (x ∷ p) s = ground (arith, has_prefix-append p s)

pub drop-append : (p s : Str) → drop (length p) (p ++ s) ≡ s
drop-append [] s = refl
drop-append (x ∷ p) s = drop-append p s

pub has_prefix-split : (s p : Str) → has_prefix s p ≡ true → s ≡ p ++ drop (length p) s
unfolding has_prefix
has_prefix-split s [] h = refl
has_prefix-split [] (x ∷ p) h = ground arith
has_prefix-split (c ∷ s) (x ∷ p) h = ground (arith, has_prefix-split s p)

-- strings.IndexByte, with `none` for -1.
unfoldable pub index_byte : Str → ℕ → Option ℕ
index_byte [] c = none
index_byte (x ∷ s) c =
    if x == c then some 0 else elim (index_byte s c) [ none ↦ none | some i ↦ some (suc i) ]

-- The last index of a byte.
unfoldable pub last_index_byte : Str → ℕ → Option ℕ
last_index_byte [] c = none
last_index_byte (x ∷ s) c = elim (last_index_byte s c) [
  | some i ↦ some (suc i)
  | none ↦ if x == c then some 0 else none
]

unfoldable pub contains_byte : Str → ℕ → Bool
contains_byte [] c = false
contains_byte (x ∷ s) c = x == c || contains_byte s c

-- The end of net.SplitHostPort: no bracket after `j` and `k`.
split_checked : Str → Str → ℕ → ℕ → ℕ → Option (Str × Str)
split_checked hostport host i j k =
    if contains_byte (drop j hostport) b'['
    then none
    else if contains_byte (drop k hostport) b']'
    then none
    else some (host, drop (suc i) hostport)

-- A host in brackets, whose last colon is at `i`.
split_bracketed : Str → ℕ → Option (Str × Str)
split_bracketed hostport i = elim (index_byte hostport b']') [
  | none ↦ none
  | some end ↦
      if suc end == i
      then split_checked hostport (take (end - 1) (drop 1 hostport)) i 1 (suc end)
      else none
]

split_plain : Str → ℕ → Option (Str × Str)
split_plain hostport i =
    if contains_byte (take i hostport) b':'
    then none
    else split_checked hostport (take i hostport) i 0 0

-- net.SplitHostPort, with `none` for each of its errors.
pub split_host_port : Str → Option (Str × Str)
split_host_port hostport = elim (last_index_byte hostport b':') [
  | none ↦ none
  | some i ↦
      if has_prefix hostport (str "[") then split_bracketed hostport i else split_plain hostport i
]

pub split_v4 : split_host_port (str "10.0.0.7:5123") ≡ some (str "10.0.0.7", str "5123")
unfolding split_host_port split_bracketed split_plain split_checked index_byte last_index_byte
    contains_byte has_prefix
split_v4 = refl

split_v6 : split_host_port (str "[::1]:80") ≡ some (str "::1", str "80")
unfolding split_host_port split_bracketed split_plain split_checked index_byte last_index_byte
    contains_byte has_prefix
split_v6 = refl

split_no_port : split_host_port (str "10.0.0.7") ≡ none
unfolding split_host_port split_bracketed split_plain split_checked index_byte last_index_byte
    contains_byte has_prefix
split_no_port = refl

split_many : split_host_port (str "::1:80") ≡ none
unfolding split_host_port split_bracketed split_plain split_checked index_byte last_index_byte
    contains_byte has_prefix
split_many = refl
