-- ===== src/OpenWire/Request.antt =====
-- What an encoded request says, and which values are refused.
use mathlib.Core.Path.{subst}
use native_pipe.Base.{
  ℕ, ◌+◌, ◌≤◌, ◌<◌, ◌≡◌, ◌≢◌, refl, false, none, some, List, [], ◌∷◌, ◌++◌, length, drop, get_or,
  All, arith,
}
use native_pipe.Base.Bytes.{le32, u32_at, from_le32-le32}
use native_pipe.OpenWire.{
  OpenKind, kind_code, has_control, encode_request, header_size, max_payload,
}

-- No control character.
abbrev pub IsPrintable : ℕ → Type 0
IsPrintable c = (32 ≤ c) × (c ≢ 127)

has_control-IsPrintable : (cs : List ℕ) → has_control cs ≡ false → All IsPrintable cs
has_control-IsPrintable [] h = tt
has_control-IsPrintable (c ∷ cs) h = ground (arith, has_control-IsPrintable cs)

IsPrintable-has_control : (cs : List ℕ) → All IsPrintable cs → has_control cs ≡ false
IsPrintable-has_control [] h = refl
IsPrintable-has_control (c ∷ cs) (h, hs) = ground (arith, IsPrintable-has_control cs hs)

-- The frame of a value.
abbrev request_frame : OpenKind → List ℕ → List ℕ
request_frame kind value =
    (b'N' ∷ b'P' ∷ b'O' ∷ b'P' ∷ 1 ∷ kind_code kind ∷ 0 ∷ 0 ∷ []) ++ (le32 (length value) ++ value)

-- What the frame of a value says.
abbrev pub Describes : OpenKind → List ℕ → List ℕ → Type 0
Describes kind value frame =
    (length frame ≡ header_size + length value)
    × (u32_at frame 8 ≡ length value)
    × (get_or frame 5 0 ≡ kind_code kind)
    × (drop 12 frame ≡ value)

request_frame-Describes :
    (kind : OpenKind) (value : List ℕ)
    → length value ≤ max_payload
    → Describes kind value (request_frame kind value)
request_frame-Describes kind value h =
    (omega arith, from_le32-le32 (length value) (omega arith), refl, refl)

-- np_open_encode_request accepts exactly the values of 1 to 8192 bytes without control characters that
-- fit the buffer with the header. Then the frame is 12 bytes longer than the value, the four bytes at
-- offset 8 hold the length of the value, the kind stands at offset 5, and behind the header stands the
-- value itself.
pub encode_request-exact :
    (kind : OpenKind) (value : List ℕ) (capacity : ℕ)
    → ((frame : List ℕ)
        → encode_request kind value capacity ≡ some frame
        → All IsPrintable value
          × (0 < length value)
          × (length value ≤ max_payload)
          × (length frame ≤ capacity)
          × Describes kind value frame)
      × (encode_request kind value capacity ≡ none
          → All IsPrintable value
          → 0 < length value
          → length value ≤ max_payload
          → capacity < header_size + length value)
unfolding encode_request
encode_request-exact kind value capacity = (
  (λ frame e.
      let fine : has_control value ≡ false = ground arith in
      let some_bytes : 0 < length value = ground arith in
      let short : length value ≤ max_payload = ground arith in
      let room : header_size + length value ≤ capacity = ground arith in
      let same : request_frame kind value ≡ frame = ground arith in
      let said = request_frame-Describes kind value short in
      let long = said.0 in
      (
        has_control-IsPrintable value fine,
        some_bytes,
        short,
        subst (λ t. length t ≤ capacity) same (omega (arith, long)),
        subst (Describes kind value) same said,
      )),
  (λ e h k l. ground (arith, IsPrintable-has_control value h)),
)
