-- ===== src/DropFs/Names.antt =====
-- Tokens, names and paths: valid_token, valid_name, join and under of np_drop_fs.c.
use native_pipe.Base.{
  ℕ, suc, Bool, true, false, not, ◌||◌, ◌&&◌, Option, none, some, List, [], ◌∷◌, ◌++◌, ltb, leb,
  ◌==◌, if◌then◌else◌, length, is_some,
}
use native_pipe.DropFs.State.{token_length, name_max, path_max}

-- `!strcmp(a, b)`
abbrev pub same : List ℕ → List ℕ → Bool
same [] [] = true
same [] (b ∷ bs) = false
same (a ∷ rest) [] = false
same (a ∷ rest) (b ∷ bs) = (a == b) && same rest bs

abbrev pub slash : ℕ
slash = b'/'

abbrev pub dot : ℕ
dot = b'.'

abbrev pub hex_digit : ℕ → Bool
hex_digit c =
    (leb b'0' c && leb c b'9') || ((leb b'A' c && leb c b'F') || (leb b'a' c && leb c b'f'))

-- The loop of valid_token from an index.
abbrev pub token_bytes : ℕ → List ℕ → Bool
token_bytes i [] = true
token_bytes i (c ∷ cs) =
    let dash = (i == 8) || ((i == 13) || ((i == 18) || (i == 23))) in
    (if dash then c == b'-' else hex_digit c) && token_bytes (suc i) cs

-- valid_token
unfoldable pub valid_token : List ℕ → Bool
valid_token name = (length name == token_length) && token_bytes 0 name

-- `memchr(name, '/', length)`
abbrev pub has_slash : List ℕ → Bool
has_slash [] = false
has_slash (c ∷ cs) = (c == slash) || has_slash cs

-- valid_name
unfoldable pub valid_name : List ℕ → Bool
valid_name name =
    not (length name == 0)
    && (leb (length name) name_max
        && (not (has_slash name)
            && (not (same name (dot ∷ [])) && not (same name (dot ∷ dot ∷ [])))))

-- join: parent/name, or name when the parent is the drop's own directory; nothing is ENAMETOOLONG.
unfoldable pub join : List ℕ → List ℕ → Option (List ℕ)
join [] name = if ltb path_max (length name) then none else some name
join (p ∷ ps) name =
    let whole = (p ∷ ps) ++ (slash ∷ name) in
    if ltb path_max (length whole) then none else some whole

-- What follows the prefix: nothing or a slash and more.
abbrev pub at_end : List ℕ → Option (List ℕ)
at_end [] = some []
at_end (c ∷ cs) = if c == slash then some (c ∷ cs) else none

-- What `under` compares: the rest of a path behind a prefix of it.
abbrev pub rest_under : List ℕ → List ℕ → Option (List ℕ)
rest_under path [] = at_end path
rest_under [] (q ∷ qs) = none
rest_under (p ∷ ps) (q ∷ qs) = let rest = rest_under ps qs in if p == q then rest else none

-- under
abbrev pub under : List ℕ → List ℕ → Bool
under path prefix = is_some (rest_under path prefix)
