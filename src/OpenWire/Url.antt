-- ===== src/OpenWire/Url.antt =====
-- Percent-encoded file URLs decode to the path that they encode.
use native_pipe.Base.{
  ℕ, suc, ◌+◌, ◌-◌, ◌*◌, ◌/◌, ◌%◌, ◌<◌, ◌≡◌, ◌≢◌, refl, ◌∙◌, Bool, true, false, some, List, [], ◌∷◌,
  ◌++◌, ltb, leb, ◌==◌, if◌then◌else◌, length, drop, All, arith, Bool-cases, inl, inr,
}
use native_pipe.OpenWire.{
  hex_value, is_end, store, decode_path, file_prefix, localhost_prefix, CaseCompare,
  file_url_to_path,
}

-- A byte of a path: not the final 0.
abbrev pub IsPathByte : ℕ → Type 0
IsPathByte c = (0 < c) × (c < 256)

-- The digit of a value below 16, as a small letter or a capital from ten on.
abbrev pub hex_digit : Bool → ℕ → ℕ
hex_digit small n = if ltb n 10 then b'0' + n else (if small then b'a' else b'A') + (n - 10)

hex_value-hex_digit : (small : Bool) (n : ℕ) → n < 16 → hex_value (hex_digit small n) ≡ some n
unfolding hex_value
hex_value-hex_digit small n h = ground arith

-- Any choice of the bytes that an encoder leaves as they are, and, for each other byte, of the case of its
-- two digits.
module _ (plain : ℕ → Bool) (small : ℕ → Bool × Bool) where
  abbrev pub encode_byte : ℕ → List ℕ
  encode_byte c =
      if plain c
      then c ∷ []
      else b'%' ∷ hex_digit ((small c).0) (c / 16) ∷ hex_digit ((small c).1) (c % 16) ∷ []

  abbrev pub encode_path : List ℕ → List ℕ
  encode_path [] = []
  encode_path (c ∷ cs) = encode_byte c ++ encode_path cs

-- The bytes that have a meaning of their own in a URL are not left as they are.
abbrev pub IsSafe : (ℕ → Bool) → Type 0
IsSafe plain = (plain b'%' ≡ false) × (plain b'?' ≡ false) × (plain b'#' ≡ false)

decode_path-byte :
    (capacity n c : ℕ) (cs : List ℕ)
    → is_end c ≡ false
    → (c == b'%') ≡ false
    → decode_path capacity n (c ∷ cs) ≡ store capacity n c (decode_path capacity (n + 1) cs)
unfolding decode_path
decode_path-byte capacity n c [] h k = rw (h, k)
decode_path-byte capacity n c (d ∷ []) h k = rw (h, k)
decode_path-byte capacity n c (d ∷ e ∷ cs) h k = rw (h, k)

decode_path-escape :
    (small large : Bool) (capacity n c : ℕ) (cs : List ℕ)
    → IsPathByte c
    → decode_path capacity n (b'%' ∷ hex_digit small (c / 16) ∷ hex_digit large (c % 16) ∷ cs)
      ≡ store capacity n c (decode_path capacity (n + 1) cs)
unfolding decode_path
decode_path-escape small large capacity n c cs h =
    let high = hex_value-hex_digit small (c / 16) (omega arith) in
    let low = hex_value-hex_digit large (c % 16) (omega arith) in
    let joined : c / 16 * 16 + c % 16 ≡ c = omega arith in
    let some_byte : (c == 0) ≡ false = ground arith in rw (high, low, joined, some_byte)

plain_apart : (plain : ℕ → Bool) (c x : ℕ) → plain c ≡ true → plain x ≡ false → (c == x) ≡ false
plain_apart plain c x h k = elim (Bool-cases (c == x)) [
  | inr apart ↦ apart
  | inl same ↦ let e : c ≡ x = ground arith in cc (h, k, e)
]

decode_path-encode_path :
    (plain : ℕ → Bool) (small : ℕ → Bool × Bool) (capacity n : ℕ) (cs : List ℕ)
    → IsSafe plain
    → All IsPathByte cs
    → n + length cs < capacity
    → decode_path capacity n (encode_path plain small cs) ≡ some cs
unfolding decode_path
decode_path-encode_path plain small capacity n [] safe h room = refl
decode_path-encode_path plain small capacity n (c ∷ cs) safe (h, hs) room =
    let fits : leb capacity (n + 1) ≡ false = ground arith in
    let rest = decode_path-encode_path plain small capacity (n + 1) cs safe hs (omega arith) in
    elim (Bool-cases (plain c)) [
      | inl kept ↦
          let no_end : is_end c ≡ false =
            rw (plain_apart plain c b'?' kept safe.1) (plain_apart plain c b'#' kept safe.2) in
          let no_escape : (c == b'%') ≡ false = plain_apart plain c b'%' kept safe.0 in
          rw kept (
            decode_path-byte capacity n c (encode_path plain small cs) no_end no_escape
            ∙ rw (rest, fits))
      | inr coded ↦ rw coded (
          decode_path-escape (small c).0 (small c).1 capacity n c (encode_path plain small cs) h
          ∙ rw (rest, fits))
    ]

slash_not_l : (a b : ℕ) → a ≡ b'/' → b ≡ b'l' → a ≢ b
slash_not_l a b h k e = omega arith

-- A URL of the form file:///path, with or without the host localhost, in which any bytes of the path but
-- the first slash are percent-encoded, the bytes %, ? and # always, and each hexadecimal digit from ten on
-- is a small letter or a capital, is converted to exactly that path, when the buffer has room for the path
-- and its final 0.
pub file_url_to_path-encode_path :
    (k : CaseCompare) (plain : ℕ → Bool) (small : ℕ → Bool × Bool) (cs : List ℕ) (capacity : ℕ)
    → IsSafe plain
    → All IsPathByte cs
    → suc (length cs) < capacity
    → (file_url_to_path k (file_prefix ++ (b'/' ∷ encode_path plain small cs)) capacity
        ≡ some (b'/' ∷ cs))
      × (file_url_to_path k
            (file_prefix ++ (localhost_prefix ++ encode_path plain small cs))
            capacity
          ≡ some (b'/' ∷ cs))
unfolding file_url_to_path
file_url_to_path-encode_path k plain small cs capacity safe h room =
    let rest = decode_path-encode_path plain small capacity 1 cs safe h (omega arith) in
    let apart : k.tolower b'/' ≢ k.tolower b'l' =
      slash_not_l (k.tolower b'/') (k.tolower b'l') k.tolower_slash k.tolower_l in
    let fits : leb capacity 1 ≡ false = ground arith in
    let some_room : (capacity == 0) ≡ false = ground arith in
    let slash : decode_path capacity 0 (b'/' ∷ encode_path plain small cs) ≡ some (b'/' ∷ cs) =
      decode_path-byte capacity 0 b'/' (encode_path plain small cs) refl refl ∙ rw (rest, fits) in
    let tail = b'/' ∷ encode_path plain small cs in
    (
      rw (
        some_room,
        k.same_prefix tail file_prefix,
        k.first_differs b'/' b'l' (encode_path plain small cs) (drop 1 localhost_prefix) 9 apart,
        slash,
      ),
      rw (
        some_room,
        k.same_prefix (localhost_prefix ++ encode_path plain small cs) file_prefix,
        k.same_prefix (encode_path plain small cs) localhost_prefix,
        slash,
      ),
    )
