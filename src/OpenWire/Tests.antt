-- ===== src/OpenWire/Tests.antt =====
-- A request for a short URL and a file URL with an escape.
use native_pipe.Base.{
  ℕ, zero, suc, ◌+◌, ◌≤◌, ◌<◌, ◌≡◌, ◌≢◌, refl, Bool, true, false, ◌&&◌, ◌||◌, none, some, List, [],
  ◌∷◌, ◌++◌, ◌==◌, length, All, arith,
}
use native_pipe.OpenWire.{
  url_kind, encode_request, header_size, max_payload, CaseCompare, file_url_to_path, file_prefix,
  localhost_prefix, decode_path, hex_value,
}
use native_pipe.OpenWire.Request.{IsPrintable, Describes, encode_request-exact}
use native_pipe.OpenWire.Url.{encode_path, file_url_to_path-encode_path}

-- A comparison of the first bytes, which takes all letters for small ones.
abbrev starts_same : List ℕ → List ℕ → ℕ → Bool
starts_same s t zero = true
starts_same [] [] (suc n) = true
starts_same [] (b ∷ t) (suc n) = false
starts_same (a ∷ s) [] (suc n) = false
starts_same (a ∷ s) (b ∷ t) (suc n) = (a == b) && starts_same s t n

starts_same-append : (s t : List ℕ) → starts_same (t ++ s) t (length t) ≡ true
starts_same-append s [] = refl
starts_same-append s (b ∷ t) = ground (arith, starts_same-append s t)

starts_same_not :
    (a b : ℕ) (s t : List ℕ) (n : ℕ) → a ≢ b → starts_same (a ∷ s) (b ∷ t) (suc n) ≡ false
starts_same_not a b s t n h = ground arith

abbrev exact_case : CaseCompare
exact_case = record {
  same = starts_same;
  tolower = λ c. c;
  tolower_slash = refl;
  tolower_l = refl;
  same_prefix = starts_same-append;
  first_differs = starts_same_not;
}

abbrev letters : ℕ → Bool
letters c = (c == b'a') || (c == b'b')

-- The digit of the slash in a small letter, all others in capitals.
abbrev small_slash : ℕ → Bool × Bool
small_slash c = (c == b'/', c == b'/')

decodes :
    file_url_to_path exact_case (file_prefix ++ (b'/' ∷ b'a' ∷ b'%' ∷ b'2' ∷ b'0' ∷ [])) 10
    ≡ some (b'/' ∷ b'a' ∷ b' ' ∷ [])
unfolding file_url_to_path decode_path hex_value
decodes = refl

file_url_to_path-encode_path_example :
    (file_url_to_path exact_case
        (file_prefix ++ (b'/' ∷ encode_path letters small_slash (b'a' ∷ b'/' ∷ b'*' ∷ [])))
        16
      ≡ some (b'/' ∷ b'a' ∷ b'/' ∷ b'*' ∷ []))
    × (file_url_to_path exact_case
          (file_prefix
            ++ (localhost_prefix ++ encode_path letters small_slash (b'a' ∷ b'/' ∷ b'*' ∷ [])))
          16
        ≡ some (b'/' ∷ b'a' ∷ b'/' ∷ b'*' ∷ []))
file_url_to_path-encode_path_example =
    file_url_to_path-encode_path exact_case letters small_slash (b'a' ∷ b'/' ∷ b'*' ∷ []) 16
      (refl, refl, refl) (omega arith) (omega arith)

abbrev value : List ℕ
value = b'h' ∷ b':' ∷ b'/' ∷ []

encode_request-exact_example :
    ((frame : List ℕ)
      → encode_request url_kind value 64 ≡ some frame
      → All IsPrintable value
        × (0 < length value)
        × (length value ≤ max_payload)
        × (length frame ≤ 64)
        × Describes url_kind value frame)
    × (encode_request url_kind value 64 ≡ none
        → All IsPrintable value
        → 0 < length value
        → length value ≤ max_payload
        → 64 < header_size + length value)
encode_request-exact_example = encode_request-exact url_kind value 64
