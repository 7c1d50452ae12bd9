-- ===== src/Wire/Fields.antt =====
-- Any sequence of values, put with the functions of windowwire.c and read with those for the same types.
use native_pipe.Base.{
  ℕ, ◌^◌, ◌≤◌, ◌<◌, ◌≡◌, Bool, if◌then◌else◌, true, false, Option, none, some, List, [], ◌∷◌, ◌++◌,
  ◌==◌, length, All, arith, ◌-◌,
}
use native_pipe.Base.Bytes.{IsByte, IsU16, IsU32, IsU64, le16, le32}
use native_pipe.Base.Int.{ℤ, pos_part, neg_part}
use native_pipe.Wire.{
  Message, WindowReader, ReadBytes, refused_bytes, absent, present_bytes, put_u8, put_bool, put_u16,
  put_u32, put_i32, put_u64, put_bytes, put_optional_bytes, read_u8, read_bool, read_u16, read_u32,
  read_i32, read_u64, read_bytes, read_string, has_nul, max_field, reader_finished,
}
use native_pipe.Wire.Layout.{
  u64_layout, i32_layout, bytes_layout, Puts, Puts-append, Puts-trans, Puts-nil, Puts-u32, Puts-u64,
  Puts-i32, Puts-bytes,
}
use native_pipe.Wire.Reader.{StandsAt}

-- A value and the function that puts it.
pub data Field : Type 0 where
  u8_field u16_field u32_field u64_field : ℕ → Field
  bool_field : Bool → Field
  i32_field : ℤ → Field
  bytes_field string_field : List ℕ → Field
  optional_field : Option (List ℕ) → Field

abbrev pub put_field : (ℕ → Bool) → Message → Field → Message
put_field realloc m (u8_field n) = put_u8 realloc m n
put_field realloc m (u16_field n) = put_u16 realloc m n
put_field realloc m (u32_field n) = put_u32 realloc m n
put_field realloc m (u64_field n) = put_u64 realloc m n
put_field realloc m (bool_field b) = put_bool realloc m b
put_field realloc m (i32_field a) = put_i32 realloc m a
put_field realloc m (bytes_field bs) = put_bytes realloc m bs
put_field realloc m (string_field bs) = put_bytes realloc m bs
put_field realloc m (optional_field o) = put_optional_bytes realloc m o

abbrev pub put_fields : (ℕ → Bool) → Message → List Field → Message
put_fields realloc m [] = m
put_fields realloc m (f ∷ fs) = put_fields realloc (put_field realloc m f) fs

-- What read_bytes gave, as a field.
abbrev pub found_bytes : ReadBytes → Option Field
found_bytes (present_bytes bs) = some (bytes_field bs)
found_bytes _ = none

abbrev pub found_optional : ReadBytes → Option Field
found_optional refused_bytes = none
found_optional absent = some (optional_field none)
found_optional (present_bytes bs) = some (optional_field (some bs))

abbrev pub found_string : Option (List ℕ) → Option Field
found_string none = none
found_string (some bs) = some (string_field bs)

abbrev pub then_found {ℓ} :
    {A : Type ℓ} → (A → Option Field) → WindowReader × A → WindowReader × Option Field
then_found f (r, a) = (r, f a)

-- The read function for the type of a field; the value of the field does not count, and `malloc` says
-- whether a string gets memory.
abbrev pub read_as : Bool → Field → WindowReader → WindowReader × Option Field
read_as malloc (u8_field _) r = then_found (λ n. some (u8_field n)) (read_u8 r)
read_as malloc (u16_field _) r = then_found (λ n. some (u16_field n)) (read_u16 r)
read_as malloc (u32_field _) r = then_found (λ n. some (u32_field n)) (read_u32 r)
read_as malloc (u64_field _) r = then_found (λ n. some (u64_field n)) (read_u64 r)
read_as malloc (bool_field _) r = then_found (λ b. some (bool_field b)) (read_bool r)
read_as malloc (i32_field _) r = then_found (λ a. some (i32_field a)) (read_i32 r)
read_as malloc (bytes_field _) r = then_found found_bytes (read_bytes r false)
read_as malloc (string_field _) r = then_found found_string (read_string malloc r)
read_as malloc (optional_field _) r = then_found found_optional (read_bytes r true)

-- A value of the C type; bytes within the limit, and no 0 in a string.
abbrev pub IsField : Field → Type 0
IsField (u8_field n) = IsByte n
IsField (u16_field n) = IsU16 n
IsField (u32_field n) = IsU32 n
IsField (u64_field n) = IsU64 n
IsField (bool_field b) = Unit {0}
IsField (i32_field a) = (pos_part a < 2 ^ 31) × (neg_part a ≤ 2 ^ 31)
IsField (bytes_field bs) = length bs ≤ max_field
IsField (string_field bs) = (length bs ≤ max_field) × (has_nul bs ≡ false)
IsField (optional_field none) = Unit {0}
IsField (optional_field (some bs)) = length bs ≤ max_field

-- Each read gives the field; the reader then stands before `rest` and is finished if this is empty.
abbrev pub ReadsBack : List Field → WindowReader → List ℕ → Type 0
ReadsBack [] r rest = StandsAt r rest × (reader_finished r ≡ (length rest == 0))
ReadsBack (f ∷ fs) r rest =
    ((read_as true f r).1 ≡ some f) × ReadsBack fs ((read_as true f r).0) rest

abbrev pub bool_value : Bool → ℕ
bool_value b = if b then 1 else 0

abbrev pub field_layout : Field → List ℕ
field_layout (u8_field n) = n ∷ []
field_layout (u16_field n) = le16 n
field_layout (u32_field n) = le32 n
field_layout (u64_field n) = u64_layout n
field_layout (bool_field b) = bool_value b ∷ []
field_layout (i32_field a) = i32_layout a
field_layout (bytes_field bs) = bytes_layout bs
field_layout (string_field bs) = bytes_layout bs
field_layout (optional_field none) = le32 (2 ^ 32 - 1)
field_layout (optional_field (some bs)) = bytes_layout bs

abbrev pub fields_layout : List Field → List ℕ
fields_layout [] = []
fields_layout (f ∷ fs) = field_layout f ++ fields_layout fs

module _ (realloc : ℕ → Bool) where
  Puts-field : (f : Field) → IsField f → Puts realloc (λ m. put_field realloc m f) (field_layout f)
  unfolding put_optional_bytes
  Puts-field (u8_field n) h = Puts-append realloc (n ∷ []) (omega arith)
  Puts-field (u16_field n) h = Puts-append realloc (le16 n) (omega arith)
  Puts-field (u32_field n) h = Puts-u32 realloc n
  Puts-field (u64_field n) h = Puts-u64 realloc n
  Puts-field (bool_field b) h = Puts-append realloc (bool_value b ∷ []) (omega arith)
  Puts-field (i32_field a) h = Puts-i32 realloc a
  Puts-field (bytes_field bs) h = Puts-bytes realloc bs h
  Puts-field (string_field bs) h = Puts-bytes realloc bs h.0
  Puts-field (optional_field none) h = Puts-u32 realloc (2 ^ 32 - 1)
  Puts-field (optional_field (some bs)) h = Puts-bytes realloc bs h

  pub Puts-fields :
      (fs : List Field)
      → All IsField fs
      → Puts realloc (λ m. put_fields realloc m fs) (fields_layout fs)
  Puts-fields [] h = Puts-nil realloc
  Puts-fields (f ∷ fs) h =
      Puts-trans realloc (field_layout f) (fields_layout fs) (Puts-field f h.0) (Puts-fields fs h.1)
