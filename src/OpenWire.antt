-- ===== src/OpenWire.antt =====
-- guest/session/np-open-wire.h: the request that asks the host to open a URL or a file. A C string is a
-- list of bytes without the final 0, so that the byte behind it reads 0. The character classes and
-- comparisons of the C library are parameters.
pub mod Request
pub mod Url
mod Tests
use native_pipe.Base.{
  ℕ, suc, ◌+◌, ◌-◌, ◌*◌, ◌≤◌, ◌≡◌, ◌≢◌, Bool, true, false, not, ◌&&◌, ◌||◌, Option, none, some,
  List, [], ◌∷◌, ◌++◌, ltb, leb, ◌==◌, if◌then◌else◌, length, drop, get_or,
}
use native_pipe.Base.Bytes.{le32, u32_at}

abbrev pub header_size : ℕ
header_size = 12

abbrev pub max_payload : ℕ
max_payload = 8192

abbrev pub max_message : ℕ
max_message = 512

-- `enum np_open_kind`
pub data OpenKind : Type 0 where
  url_kind : OpenKind
  file_kind : OpenKind

abbrev pub kind_code : OpenKind → ℕ
kind_code url_kind = 1
kind_code file_kind = 2

-- `(unsigned char)value[i] < 0x20 || value[i] == 0x7f` for some i.
abbrev pub has_control : List ℕ → Bool
has_control [] = false
has_control (c ∷ cs) = ltb c 32 || ((c == 127) || has_control cs)

-- np_open_encode_request with what it writes; `none` is 0. Another kind than the two gives 0 too.
unfoldable pub encode_request : OpenKind → List ℕ → ℕ → Option (List ℕ)
encode_request kind value capacity =
    if (length value == 0)
      || (ltb max_payload (length value) || ltb capacity (header_size + length value))
    then none
    else if has_control value
    then none
    else some (
        (b'N' ∷ b'P' ∷ b'O' ∷ b'P' ∷ 1 ∷ kind_code kind ∷ 0 ∷ 0 ∷ [])
        ++ (le32 (length value) ++ value))

-- np_open_parse_response_header: the status and the length of the message.
unfoldable pub parse_response_header : List ℕ → Option (ℕ × ℕ)
parse_response_header h =
    let size = u32_at h 8 in
    let magic =
      (get_or h 0 0 == b'N')
      && ((get_or h 1 0 == b'P') && ((get_or h 2 0 == b'O') && (get_or h 3 0 == b'R'))) in
    if not magic
      || (not (get_or h 4 0 == 1)
          || (not (get_or h 6 0 == 0) || (not (get_or h 7 0 == 0) || ltb 3 (get_or h 5 0))))
    then none
    else if ltb max_message size
    then none
    else some (get_or h 5 0, size)

module _ (isalpha isalnum : ℕ → Bool) where
  -- `while (isalnum(argument[i]) || …) i++` and the test of the byte where it stops.
  abbrev pub scheme_ends : List ℕ → Bool
  scheme_ends [] = false
  scheme_ends (c ∷ cs) =
      let rest = scheme_ends cs in
      if isalnum c || ((c == b'+') || ((c == b'-') || (c == b'.'))) then rest else c == b':'

  -- np_open_looks_like_url
  unfoldable pub looks_like_url : List ℕ → Bool
  looks_like_url [] = false
  looks_like_url (c ∷ cs) = isalpha c && scheme_ends cs

-- np_open_hex_value; `none` is -1.
unfoldable pub hex_value : ℕ → Option ℕ
hex_value c =
    if leb b'0' c && leb c b'9'
    then some (c - b'0')
    else if leb b'a' c && leb c b'f'
    then some (c - b'a' + 10)
    else if leb b'A' c && leb c b'F'
    then some (c - b'A' + 10)
    else none

-- `(high << 4) | low` of two digits; `none` is the bad escape.
abbrev pub escaped : Option ℕ → Option ℕ → Option ℕ
escaped none low = none
escaped (some high) none = none
escaped (some high) (some low) = some (high * 16 + low)

abbrev pub cons_some : ℕ → Option (List ℕ) → Option (List ℕ)
cons_some c none = none
cons_some c (some cs) = some (c ∷ cs)

abbrev pub is_end : ℕ → Bool
is_end c = (c == b'?') || (c == b'#')

-- One byte is stored if there is room for it and the final 0.
abbrev pub store : ℕ → ℕ → ℕ → Option (List ℕ) → Option (List ℕ)
store capacity length c rest = if leb capacity (length + 1) then none else cons_some c rest

-- A decoded byte is stored unless it is 0.
abbrev pub store_escaped : ℕ → ℕ → Option ℕ → Option (List ℕ) → Option (List ℕ)
store_escaped capacity length none rest = none
store_escaped capacity length (some c) rest = if c == 0 then none else store capacity length c rest

-- The loop of np_open_file_url_to_path from `length` bytes on. Behind the end of the string a digit reads
-- 0 and so is none.
unfoldable pub decode_path : ℕ → ℕ → List ℕ → Option (List ℕ)
decode_path capacity length [] = some []
decode_path capacity length (c ∷ []) =
    if is_end c then some [] else if c == b'%' then none else store capacity length c (some [])
decode_path capacity length (c ∷ d ∷ []) =
    let rest = decode_path capacity (length + 1) (d ∷ []) in
    if is_end c then some [] else if c == b'%' then none else store capacity length c rest
decode_path capacity length (c ∷ d ∷ e ∷ rest) =
    let behind_escape = decode_path capacity (length + 1) rest in
    let behind_byte = decode_path capacity (length + 1) (d ∷ e ∷ rest) in
    if is_end c
    then some []
    else if c == b'%'
    then store_escaped capacity length (escaped (hex_value d) (hex_value e)) behind_escape
    else store capacity length c behind_byte

abbrev pub file_prefix : List ℕ
file_prefix = b'f' ∷ b'i' ∷ b'l' ∷ b'e' ∷ b':' ∷ b'/' ∷ b'/' ∷ []

abbrev pub localhost_prefix : List ℕ
localhost_prefix = b'l' ∷ b'o' ∷ b'c' ∷ b'a' ∷ b'l' ∷ b'h' ∷ b'o' ∷ b's' ∷ b't' ∷ b'/' ∷ []

abbrev pub non_empty : Option (List ℕ) → Option (List ℕ)
non_empty none = none
non_empty (some []) = none
non_empty (some (c ∷ cs)) = some (c ∷ cs)

-- What the code relies on of strncasecmp: `same s t n` says that it gives 0.
pub record CaseCompare : Type 0 where
  pub same : List ℕ → List ℕ → ℕ → Bool
  pub tolower : ℕ → ℕ
  pub tolower_slash : tolower b'/' ≡ b'/'
  pub tolower_l : tolower b'l' ≡ b'l'
  -- A string agrees with its own start.
  pub same_prefix : (s t : List ℕ) → same (t ++ s) t (length t) ≡ true
  -- Strings differ where their first characters do, whatever their case.
  pub first_differs :
      (a b : ℕ) (s t : List ℕ) (n : ℕ)
      → tolower a ≢ tolower b
      → same (a ∷ s) (b ∷ t) (suc n) ≡ false

-- np_open_file_url_to_path
unfoldable pub file_url_to_path : CaseCompare → List ℕ → ℕ → Option (List ℕ)
file_url_to_path k url capacity =
    let rest = drop 7 url in
    if (capacity == 0) || not (k.same url file_prefix 7)
    then none
    else if k.same rest localhost_prefix 10
    then non_empty (decode_path capacity 0 (drop 9 rest))
    else if not (get_or rest 0 0 == b'/')
    then none
    else non_empty (decode_path capacity 0 rest)
