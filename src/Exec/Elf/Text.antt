-- ===== src/Exec/Elf/Text.antt =====
-- C strings in a table of bytes, as src/exec/elf/mut_exec.c uses them: strlen(3), strcmp(3) and
-- strstr(3), and the write of a '\0'.
use mut.Base.{
  ℕ, zero, suc, Bool, true, false, ◌&&◌, Option, none, some, List, [], ◌∷◌, if◌then◌else◌, ◌==◌,
}

-- `&data[n]`
unfoldable pub from : ℕ → List ℕ → List ℕ
from zero bs = bs
from (suc n) [] = []
from (suc n) (b ∷ bs) = from n bs

-- `data[n]`
unfoldable pub byte_at : ℕ → List ℕ → ℕ
byte_at n [] = 0
byte_at zero (b ∷ bs) = b
byte_at (suc n) (b ∷ bs) = byte_at n bs

-- The bytes before the '\0'. The table's own end ends a string that has none.
unfoldable pub c_string : List ℕ → List ℕ
c_string [] = []
c_string (b ∷ bs) = let rest = c_string bs in if b == 0 then [] else b ∷ rest

unfoldable pub string_at : ℕ → List ℕ → List ℕ
unfolding from c_string
string_at n bs = c_string (from n bs)

-- `strcmp(...) == 0`
unfoldable pub same_bytes : List ℕ → List ℕ → Bool
same_bytes [] [] = true
same_bytes [] (c ∷ cs) = false
same_bytes (b ∷ bs) [] = false
same_bytes (b ∷ bs) (c ∷ cs) = (b == c) && same_bytes bs cs

unfoldable pub begins : List ℕ → List ℕ → Bool
begins [] bs = true
begins (c ∷ cs) [] = false
begins (c ∷ cs) (b ∷ bs) = (c == b) && begins cs bs

-- strstr(3): where `part` begins first in `bs`.
unfoldable pub strstr : List ℕ → List ℕ → Option ℕ
unfolding begins
strstr [] part = if begins part [] then some 0 else none
strstr (b ∷ bs) part =
    let later = strstr bs part in
    if begins part (b ∷ bs) then some 0 else elim later [ none ↦ none | some k ↦ some (suc k) ]

-- `data[n] = '\0'`
unfoldable pub end_at : ℕ → List ℕ → List ℕ
end_at n [] = []
end_at zero (b ∷ bs) = 0 ∷ bs
end_at (suc n) (b ∷ bs) = b ∷ end_at n bs

-- `x[strlen(x) - 1] == '/'`; of an empty string the byte before it in the table, `before`.
unfoldable pub last_is_slash : ℕ → List ℕ → Bool
last_is_slash before [] = before == 47
last_is_slash before (b ∷ bs) = last_is_slash b bs
