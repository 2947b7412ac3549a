-- ===== src/Path/Dates.antt =====
-- `get_curr_time` and `get_flmodified` of src/file_handlers.c. What `localtime` and `gmtime` make of
-- a time is an argument.
use simle_http_server.Prelude.{
  ℕ, ◌+◌, ◌/◌, ◌%◌, ◌≤◌, ◌<◌, ◌≡◌, ◌++◌, [], ◌∷◌, List, Option, none, some, Outcome, ok, crash,
  undefined, arith, ltb, if◌then◌else◌, length, length-append, get_or,
}
use simle_http_server.Peer.{CString}
use simle_http_server.Text.{codes, decimal}
use simle_http_server.Log.Digits.{length-decimal}

-- `struct tm`, as far as the format reads it; `tm_zone` is the name of the zone.
pub record Tm : Type 0 where
  pub tm_sec : ℕ
  pub tm_min : ℕ
  pub tm_hour : ℕ
  pub tm_mday : ℕ
  pub tm_mon : ℕ
  pub tm_year : ℕ
  pub tm_wday : ℕ
  pub tm_zone : CString

abbrev pub day_names : List CString
day_names =
    codes "Sun"
    ∷ codes "Mon"
    ∷ codes "Tue"
    ∷ codes "Wed"
    ∷ codes "Thu"
    ∷ codes "Fri"
    ∷ codes "Sat"
    ∷ []

abbrev pub month_names : List CString
month_names =
    codes "Jan"
    ∷ codes "Feb"
    ∷ codes "Mar"
    ∷ codes "Apr"
    ∷ codes "May"
    ∷ codes "Jun"
    ∷ codes "Jul"
    ∷ codes "Aug"
    ∷ codes "Sep"
    ∷ codes "Oct"
    ∷ codes "Nov"
    ∷ codes "Dec"
    ∷ []

-- `%d`, `%H` and the like.
abbrev pub two_digits : ℕ → CString
two_digits n = (b'0' + n / 10 % 10) ∷ (b'0' + n % 10) ∷ []

-- "%a, %d %b %Y %H:%M:%S %Z" in the locale "C".
unfoldable pub date_text : Tm → CString
date_text t =
    get_or day_names t.tm_wday (codes "?")
    ++ codes ", "
    ++ two_digits t.tm_mday
    ++ codes " "
    ++ get_or month_names t.tm_mon (codes "?")
    ++ codes " "
    ++ decimal (t.tm_year + 1900)
    ++ codes " "
    ++ two_digits t.tm_hour
    ++ codes ":"
    ++ two_digits t.tm_min
    ++ codes ":"
    ++ two_digits t.tm_sec
    ++ codes " "
    ++ t.tm_zone

-- `strftime` to a buffer; what is in the buffer is not determined if the text and its final 0 do not
-- fit, and it is read as a string later.
unfoldable pub strftime : ℕ → Tm → Outcome CString
unfolding date_text
strftime buf_size t =
    if ltb (length (date_text t)) buf_size then ok (date_text t) else crash undefined

unfoldable pub get_curr_time : (ℕ → Tm) → ℕ → ℕ → Outcome CString
unfolding strftime
get_curr_time localtime now buf_size = strftime buf_size (localtime now)

-- `stat` gives `st_mtime`; its result is not looked at, and without a file the time is read from memory
-- that is not set.
unfoldable pub get_flmodified : (CString → Option ℕ) → (ℕ → Tm) → CString → ℕ → Outcome CString
unfolding strftime
get_flmodified stat gmtime path buf_size = elim (stat path) [
  | none ↦ crash undefined
  | some st_mtime ↦ strftime buf_size (gmtime st_mtime)
]

length-day : (n : ℕ) → length (get_or day_names n (codes "?")) ≤ 3
length-day n = ground arith

length-month : (n : ℕ) → length (get_or month_names n (codes "?")) ≤ 3
length-month n = ground arith

-- A date with a zone of at most 200 bytes fits in the 256 bytes that the callers give.
date_text-fits : (t : Tm) → length t.tm_zone ≤ 200 → length (date_text t) < 256
unfolding date_text
date_text-fits t h = grind (
  arith,
  length-append,
  length-day t.tm_wday,
  length-month t.tm_mon,
  length-decimal (t.tm_year + 1900),
)

-- Both dates are whole in the 256 bytes that the handler gives, if the file exists and the names of the
-- zones have at most 200 bytes: the time of the clock in the local zone, and that of the file in the zone
-- of `gmtime`.
pub dates_lem :
    (localtime gmtime : ℕ → Tm) (stat : CString → Option ℕ) (now st_mtime : ℕ) (path : CString)
    → length (localtime now).tm_zone ≤ 200
    → length (gmtime st_mtime).tm_zone ≤ 200
    → stat path ≡ some st_mtime
    → (get_curr_time localtime now 256 ≡ ok (date_text (localtime now)))
      × (get_flmodified stat gmtime path 256 ≡ ok (date_text (gmtime st_mtime)))
unfolding get_curr_time get_flmodified
dates_lem localtime gmtime stat now st_mtime path here there exists = (
  ground (arith, date_text-fits (localtime now) here),
  ground (arith, exists, date_text-fits (gmtime st_mtime) there),
)
