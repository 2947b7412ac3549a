-- ===== src/Text.antt =====
-- C strings as src/http.c and src/file_handlers.c use them: the functions of <string.h>, `atoi`
-- and the conversions of sprintf, and the string helpers of the two files. A string is the list
-- of its bytes, without the final 0.
pub mod Uri
use Prim.Native.Char.{code}
use Prim.Native.String.{String}
use simle_http_server.Prelude.{
  ℕ, zero, suc, ◌+◌, ◌-◌, ◌*◌, ◌/◌, ◌%◌, ◌^◌, List, [], ◌∷◌, ◌++◌, Bool, true, false, not, ◌&&◌,
  ◌||◌, Option, none, some, Outcome, ok, crash, undefined, assert, ◌>>=◌, ◌>>◌, ◌==◌, ltb, leb,
  if◌then◌else◌, length, take, drop, get_or, ℤ, pos, negsuc,
}
use simle_http_server.Peer.{CString}

-- The bytes of a literal.
abbrev pub codes : String → CString
codes String.[] = []
codes (String.◌∷◌ c s) = code c ∷ codes s

-- `!strcmp(a, b)`
unfoldable pub str_eq : CString → CString → Bool
str_eq [] [] = true
str_eq [] (y ∷ ys) = false
str_eq (x ∷ xs) [] = false
str_eq (x ∷ xs) (y ∷ ys) = x == y && str_eq xs ys

-- `strncmp(a, b, n) == 0`
unfoldable pub strn_eq : ℕ → CString → CString → Bool
strn_eq zero xs ys = true
strn_eq (suc n) [] [] = true
strn_eq (suc n) [] (y ∷ ys) = false
strn_eq (suc n) (x ∷ xs) [] = false
strn_eq (suc n) (x ∷ xs) (y ∷ ys) = x == y && strn_eq n xs ys

-- The index of the last `c`, for `strrchr`.
unfoldable pub last_index : ℕ → CString → Option ℕ
last_index c [] = none
last_index c (x ∷ xs) = elim (last_index c xs) [
  | some i ↦ some (suc i)
  | none ↦ if x == c then some 0 else none
]

-- The index of the first `c`, for `strstr` with a string of one byte.
unfoldable pub first_index : ℕ → CString → Option ℕ
first_index c [] = none
first_index c (x ∷ xs) =
    let rest = first_index c xs in
    if x == c then some 0 else elim rest [ none ↦ none | some i ↦ some (suc i) ]

-- `tolower` in the C locale.
unfoldable pub to_lower : ℕ → ℕ
to_lower c = if leb b'A' c && leb c b'Z' then c + 32 else c

unfoldable pub str_tolower : CString → CString
unfolding to_lower
str_tolower [] = []
str_tolower (c ∷ s) = to_lower c ∷ str_tolower s

-- The last byte, `s[strlen(s) - 1]`, which an empty string does not have.
unfoldable pub last_byte : CString → Outcome ℕ
last_byte [] = crash undefined
last_byte (c ∷ s) = ok (get_or (c ∷ s) (length s) 0)

-- `starts_with` of src/http.c.
unfoldable pub starts_with : CString → CString → Bool
unfolding strn_eq
starts_with pre str = if ltb (length str) (length pre) then false else strn_eq (length pre) pre str

-- `chopN` of src/http.c: the string without its first `n` bytes.
unfoldable pub chop : CString → ℕ → Outcome CString
chop str n = assert (not (n == 0)) >> ok (if ltb (length str) n then str else drop n str)

-- `remove_redundancy_from_uri` of src/http.c.
unfoldable pub remove_redundancy_from_uri : CString → Outcome CString
unfolding starts_with chop last_byte
remove_redundancy_from_uri uri = do
  let prefix = codes "http://"
  s ← if starts_with prefix uri then chop uri (length prefix) else ok uri
  b ← last_byte s
  ok (if b == b'/' then take (length s - 1) s else s)

-- `requested_path_is_dir` of src/file_handlers.c.
unfoldable pub requested_path_is_dir : CString → Outcome ℕ
unfolding last_byte
requested_path_is_dir path = do b ← last_byte path; ok (if b == b'/' then 1 else 0)

-- `get_filename_ext` of src/file_handlers.c: the index in the name at which the extension starts;
-- nothing stands for the pointer to a constant empty string.
unfoldable pub get_filename_ext : CString → Option ℕ
unfolding last_index
get_filename_ext filename = elim (last_index b'.' filename) [
  | none ↦ none
  | some i ↦ if i == 0 then none else some (i + 1)
]

-- `get_mime_type` of src/http.c.
unfoldable pub get_mime_type : CString → CString
unfolding str_eq
get_mime_type mime =
    if str_eq mime (codes "html")
    then codes "text/html"
    else if str_eq mime (codes "css")
    then codes "text/css"
    else if str_eq mime (codes "png")
    then codes "image/png"
    else if str_eq mime (codes "jpeg")
    then codes "image/jpeg"
    else if str_eq mime (codes "gif")
    then codes "image/gif"
    else codes "application/octet-stream"

-- The decimal digits that `%zu` and `%d` print, with fuel for the number of digits.
unfoldable pub digits : ℕ → ℕ → CString
digits zero n = []
digits (suc fuel) n =
    let more = digits fuel (n / 10) ++ ((b'0' + n % 10) ∷ []) in
    if ltb n 10 then (b'0' + n) ∷ [] else more

-- A `size_t` has at most 20 digits.
unfoldable pub decimal : ℕ → CString
unfolding digits
decimal n = digits 20 n

unfoldable pub is_digit : ℕ → Bool
is_digit c = leb b'0' c && leb c b'9'

unfoldable pub is_space : ℕ → Bool
is_space c = c == 32 || (leb 9 c && leb c 13)

-- The value of the digits at the start of a string.
unfoldable pub digits_value : ℕ → CString → ℕ
unfolding is_digit
digits_value acc [] = acc
digits_value acc (c ∷ s) =
    let more = digits_value (acc * 10 + (c - b'0')) s in if is_digit c then more else acc

unfoldable pub skip_spaces : CString → CString
unfolding is_space
skip_spaces [] = []
skip_spaces (c ∷ s) = let more = skip_spaces s in if is_space c then more else c ∷ s

-- Outside the range of int the behaviour of `atoi` is undefined.
unfoldable pub signed_value : Bool → CString → Outcome ℤ
unfolding digits_value
signed_value minus s =
    let n = digits_value 0 s in
    if minus
    then (if leb n (2 ^ 31) then ok (if n == 0 then pos 0 else negsuc (n - 1)) else crash undefined)
    else if ltb n (2 ^ 31)
    then ok (pos n)
    else crash undefined

unfoldable pub after_spaces : CString → Outcome ℤ
unfolding signed_value
after_spaces [] = ok (pos 0)
after_spaces (c ∷ s) =
    if c == b'-'
    then signed_value true s
    else if c == b'+'
    then signed_value false s
    else signed_value false (c ∷ s)

unfoldable pub atoi : CString → Outcome ℤ
unfolding after_spaces skip_spaces
atoi s = after_spaces (skip_spaces s)
