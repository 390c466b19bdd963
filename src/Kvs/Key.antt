-- ===== src/Kvs/Key.antt =====
-- Keys of src/dare/dare_kvs_sm.c: C strings in arrays of 64 bytes, compared by strcmp and hashed up
-- to the NUL byte. A list of bytes stands for the array.
use apus.Base.{
  ℕ, ◌+◌, ◌-◌, ◌*◌, ◌%◌, ◌<◌, ◌≡◌, ◌↔◌, refl, ap, Bool, true, false, List, [], ◌∷◌, arith, ◌==◌,
  ltb, if◌then◌else◌, u32_mod,
}

abbrev pub key_size : ℕ
key_size = 64

abbrev pub Key : Type 0
Key = List ℕ

-- strcmp(k, l) == 0
unfoldable pub str_eq : Key → Key → Bool
str_eq [] [] = true
str_eq [] (d ∷ l) = d == 0
str_eq (c ∷ k) [] = c == 0
str_eq (c ∷ k) (d ∷ l) = elim (c == d) [
  | true ↦ elim (c == 0) [ true ↦ true | false ↦ str_eq k l ]
  | false ↦ false
]

-- A `char` is signed: as an unsigned summand a byte from 128 on stands for itself minus 256.
abbrev pub char_value : ℕ → ℕ
char_value c = if ltb c 128 then c else c + u32_mod - 256

-- hashval = *key + (hashval << 5) - hashval, on uint32_t
unfoldable pub hash_from : ℕ → Key → ℕ
hash_from h [] = h
hash_from h (c ∷ k) =
    if c == 0 then h else hash_from ((char_value c + h * 32 + u32_mod - h) % u32_mod) k

unfoldable pub hash : ℕ → Key → ℕ
hash size key = hash_from 0 key % size

-- The bytes before the NUL byte.
unfoldable pub c_string : Key → List ℕ
c_string [] = []
c_string (c ∷ k) = if c == 0 then [] else c ∷ c_string k

str_eq→c_string : (k l : Key) → str_eq k l ≡ true → c_string k ≡ c_string l
unfolding str_eq c_string
str_eq→c_string [] [] h = refl
str_eq→c_string [] (d ∷ l) h = ground arith
str_eq→c_string (c ∷ k) [] h = ground arith
str_eq→c_string (c ∷ k) (d ∷ l) h = ground (arith, str_eq→c_string k l)

c_string→str_eq : (k l : Key) → c_string k ≡ c_string l → str_eq k l ≡ true
unfolding str_eq c_string
c_string→str_eq [] [] h = refl
c_string→str_eq [] (d ∷ l) h = ground arith
c_string→str_eq (c ∷ k) [] h = ground arith
c_string→str_eq (c ∷ k) (d ∷ l) h = ground (arith, c_string→str_eq k l)

-- Two arrays are taken for the same key where they agree up to the NUL byte.
pub str_eq_iff : (k l : Key) → (str_eq k l ≡ true) ↔ (c_string k ≡ c_string l)
str_eq_iff k l = (str_eq→c_string k l, c_string→str_eq k l)

hash_from_eq : (h : ℕ) (k l : Key) → str_eq k l ≡ true → hash_from h k ≡ hash_from h l
unfolding str_eq hash_from
hash_from_eq h [] [] e = refl
hash_from_eq h [] (d ∷ l) e = ground arith
hash_from_eq h (c ∷ k) [] e = ground arith
hash_from_eq h (c ∷ k) (d ∷ l) e =
    ground (arith, hash_from_eq ((char_value c + h * 32 + u32_mod - h) % u32_mod) k l)

-- The hash is that of the C string.
pub hash_eq : (size : ℕ) (k l : Key) → str_eq k l ≡ true → hash size k ≡ hash size l
unfolding hash
hash_eq size k l e = ap (λ x. x % size) (hash_from_eq 0 k l e)

pub hash-lt : (size : ℕ) (k : Key) → 0 < size → hash size k < size
unfolding hash
hash-lt size k h = omega arith
