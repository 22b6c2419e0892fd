-- ===== src/Text.antt =====
-- What the log functions stream: the arguments of `write_log_helper` (src/utilities.hpp), and
-- the bytes that `operator<<` of the standard streams makes of each. Then std::stoi.
pub mod Numerals
use Prim.Native.String.{String}
use dr_shadow_stack.Base.{
  Bool, true, false, not, Option, some, none, ◌&&◌, ◌||◌, ◌*◌, ◌-◌, ℕ, zero, suc, ◌+◌, ◌/◌, ◌%◌,
  List, [], ◌∷◌, ◌++◌, ltb, ◌==◌, if◌then◌else◌, codes,
}

-- A streamed value: a literal, a C string of which only the bytes are known, a pointer, an int, a char.
pub data Arg : Type 0 where
  text : String → Arg
  bytes : List ℕ → Arg
  pointer : ℕ → Arg
  number : ℕ → Arg
  character : ℕ → Arg

unfoldable pub digit : ℕ → ℕ
digit d = if ltb d 10 then d + b'0' else d + 87

-- Sixty-four digits are enough for every machine word in any base from 2.
unfoldable pub digits_on : ℕ → ℕ → ℕ → List ℕ → List ℕ
digits_on zero base n acc = acc
digits_on (suc f) base n acc =
    let rest = digits_on f base (n / base) (digit (n % base) ∷ acc) in if n == 0 then acc else rest

unfoldable pub numeral_on : ℕ → ℕ → ℕ → List ℕ
unfolding digits_on digit
numeral_on f base n = if n == 0 then b'0' ∷ [] else digits_on f base n []

unfoldable pub numeral : ℕ → ℕ → List ℕ
unfolding numeral_on
numeral = numeral_on 64

-- `stream << val`. A null pointer prints as 0.
unfoldable pub put : Arg → List ℕ
unfolding numeral
put (text s) = codes s
put (bytes bs) = bs
put (pointer a) = if a == 0 then b'0' ∷ [] else b'0' ∷ b'x' ∷ numeral 16 a
put (number n) = numeral 10 n
put (character c) = c ∷ []

-- The variadic recursion on head and tail. A call has at least one argument.
unfoldable pub write_log_helper : List Arg → List ℕ
write_log_helper [] = []
write_log_helper (head ∷ tail) = put head ++ write_log_helper tail

-- What std::stoi makes of a text: a number, a negative number by its size, or an exception.
pub data Stoi : Type 0 where
  value : ℕ → Stoi
  negative : ℕ → Stoi
  throws : Stoi

abbrev pub is_digit : ℕ → Bool
is_digit c = not (ltb c b'0') && ltb c 58

abbrev pub is_space : ℕ → Bool
is_space c = c == b' ' || (not (ltb c 9) && ltb c 14)

unfoldable pub skip_space : List ℕ → List ℕ
skip_space [] = []
skip_space (c ∷ cs) = let rest = skip_space cs in if is_space c then rest else c ∷ cs

-- The number that the leading digits spell, after `n`; `any` says that there has been a digit.
unfoldable pub read_digits : List ℕ → ℕ → Bool → Option ℕ
read_digits [] n any = if any then some n else none
read_digits (c ∷ cs) n any =
    let rest = read_digits cs (10 * n + (c - b'0')) true in
    if is_digit c then rest else (if any then some n else none)

-- The results that an int can hold.
unfoldable pub in_int : Option ℕ → Stoi
in_int none = throws
in_int (some n) = if ltb n 2147483648 then value n else throws

unfoldable pub in_negative_int : Option ℕ → Stoi
in_negative_int none = throws
in_negative_int (some n) = if ltb n 2147483649 then negative n else throws

unfoldable pub signed : List ℕ → Stoi
unfolding read_digits in_int in_negative_int
signed [] = throws
signed (c ∷ cs) =
    if c == b'+'
    then in_int (read_digits cs 0 false)
    else (if c == b'-'
        then in_negative_int (read_digits cs 0 false)
        else in_int (read_digits (c ∷ cs) 0 false))

unfoldable pub stoi : List ℕ → Stoi
unfolding skip_space signed
stoi s = signed (skip_space s)
