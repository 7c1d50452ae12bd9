-- ===== src/Wire/RoundTrip.antt =====
-- The read functions of windowwire.c on what its put functions wrote.
use mathlib.Core.Path.{subst}
use native_pipe.Base.{
  ℕ, ◌^◌, ◌≤◌, ◌≡◌, refl, sym, ◌∙◌, ap, Bool, true, false, Option, none, some, List, [], ◌∷◌, ◌++◌,
  ◌==◌, length, All, arith, append_assoc, drop, drop-append, length-append, length-drop, ◌-◌, ◌/◌,
  ◌%◌,
}
use native_pipe.Base.Bytes.{IsU16, le16, le32}
use native_pipe.Wire.{
  Message, WindowReader, absent, read_u8, read_bool, read_u16, read_bytes, read_string, bytes_after,
  has_nul, max_field, u32_of, reader_finished,
}
use native_pipe.Wire.Writer.{IsShort}
use native_pipe.Wire.Layout.{bytes_layout}
use native_pipe.Wire.Reader.{
  StandsAt, StandsAt-moved, moved, take_bytes-StandsAt, read_u32-StandsAt, read_u64-StandsAt,
  read_i32-StandsAt, read_bytes-StandsAt,
}
use native_pipe.Wire.Fields.{
  Field, u8_field, u16_field, u32_field, u64_field, bool_field, i32_field, bytes_field,
  string_field, optional_field, put_fields, read_as, found_bytes, found_optional, found_string,
  then_found, IsField, ReadsBack, bool_value, field_layout, fields_layout, Puts-fields,
}

-- A read that gave the field and stands behind it.
abbrev Found : Field → List ℕ → WindowReader × Option Field → Type 0
Found f rest p = (p.1 ≡ some f) × StandsAt p.0 rest

module _ (r : WindowReader) (rest : List ℕ) where
  -- From the equation of a read function.
  then_found-Found :
      {A : Type 0} (f : Field) (g : A → Option Field) {p : WindowReader × A} {q : WindowReader}
      {a : A}
      → p ≡ (q, a)
      → g a ≡ some f
      → StandsAt q rest
      → Found f rest (then_found g p)
  then_found-Found f g e h s = subst (λ p. Found f rest (then_found g p)) (sym e) (h, s)

  read_u8-StandsAt : (n : ℕ) → StandsAt r (n ∷ rest) → read_u8 r ≡ (moved r 1, n)
  read_u8-StandsAt n s = rw (take_bytes-StandsAt r (n ∷ []) rest s) refl

  read_bool-StandsAt : (b : Bool) → StandsAt r (bool_value b ∷ rest) → read_bool r ≡ (moved r 1, b)
  read_bool-StandsAt b s = rw (read_u8-StandsAt (bool_value b) s) (ground arith)

  read_u16-StandsAt : (n : ℕ) → IsU16 n → StandsAt r (le16 n ++ rest) → read_u16 r ≡ (moved r 2, n)
  read_u16-StandsAt n h s = rw (take_bytes-StandsAt r (le16 n) rest s) (ground arith)

  read_string-StandsAt :
      (bs : List ℕ)
      → length bs ≤ max_field
      → has_nul bs ≡ false
      → StandsAt r (bytes_layout bs ++ rest)
      → read_string true r ≡ (moved (moved r 4) (length bs), some bs)
  unfolding read_string
  read_string-StandsAt bs h nul s = cc (read_bytes-StandsAt r bs rest false h s, nul)

  read_absent-StandsAt :
      StandsAt r (le32 (2 ^ 32 - 1) ++ rest) → read_bytes r true ≡ (moved r 4, absent)
  unfolding bytes_after
  read_absent-StandsAt s = rw (read_u32-StandsAt r (2 ^ 32 - 1) rest (omega arith) s, s.ready) refl

  behind_bytes :
      (bs : List ℕ)
      → StandsAt r (bytes_layout bs ++ rest)
      → StandsAt (moved (moved r 4) (length bs)) rest
  behind_bytes bs s =
      StandsAt-moved (moved r 4) bs rest (StandsAt-moved r (le32 (length bs)) (bs ++ rest) s)

  read_as-Found :
      (f : Field)
      → IsField f
      → StandsAt r (field_layout f ++ rest)
      → Found f rest (read_as true f r)
  read_as-Found (u8_field n) h s =
      then_found-Found (u8_field n) (λ k. some (u8_field k)) (read_u8-StandsAt n s) refl
        (StandsAt-moved r (n ∷ []) rest s)
  read_as-Found (u16_field n) h s =
      then_found-Found (u16_field n) (λ k. some (u16_field k)) (read_u16-StandsAt n h s) refl
        (StandsAt-moved r (le16 n) rest s)
  read_as-Found (u32_field n) h s =
      then_found-Found (u32_field n) (λ k. some (u32_field k)) (read_u32-StandsAt r n rest h s) refl
        (StandsAt-moved r (le32 n) rest s)
  read_as-Found (u64_field n) h s =
      let low = le32 (n % 2 ^ 32) in
      let high = le32 (n / 2 ^ 32 % 2 ^ 32) in
      then_found-Found (u64_field n) (λ k. some (u64_field k)) (read_u64-StandsAt r n rest h s) refl
        (StandsAt-moved (moved r 4) high rest (StandsAt-moved r low (high ++ rest) s))
  read_as-Found (bool_field b) h s =
      then_found-Found (bool_field b) (λ k. some (bool_field k)) (read_bool-StandsAt b s) refl
        (StandsAt-moved r (bool_value b ∷ []) rest s)
  read_as-Found (i32_field a) h s =
      then_found-Found (i32_field a) (λ k. some (i32_field k))
        (read_i32-StandsAt r a rest h.0 h.1 s) refl (StandsAt-moved r (le32 (u32_of a)) rest s)
  read_as-Found (bytes_field bs) h s =
      then_found-Found (bytes_field bs) found_bytes (read_bytes-StandsAt r bs rest false h s) refl
        (behind_bytes bs s)
  read_as-Found (string_field bs) h s =
      then_found-Found (string_field bs) found_string (read_string-StandsAt bs h.0 h.1 s) refl
        (behind_bytes bs s)
  read_as-Found (optional_field none) h s =
      then_found-Found (optional_field none) found_optional (read_absent-StandsAt s) refl
        (StandsAt-moved r (le32 (2 ^ 32 - 1)) rest s)
  read_as-Found (optional_field (some bs)) h s =
      then_found-Found (optional_field (some bs)) found_optional
        (read_bytes-StandsAt r bs rest true h s) refl (behind_bytes bs s)

finished-StandsAt :
    (r : WindowReader) (rest : List ℕ) → StandsAt r rest → reader_finished r ≡ (length rest == 0)
unfolding reader_finished
finished-StandsAt r rest s =
    ground (arith, s.ready, s.within, ap length s.next_bytes, length-drop r.offset r.bytes)

fields-ReadsBack :
    (fs : List Field) (r : WindowReader) (rest : List ℕ)
    → All IsField fs
    → StandsAt r (fields_layout fs ++ rest)
    → ReadsBack fs r rest
fields-ReadsBack [] r rest h s = (s, finished-StandsAt r rest s)
fields-ReadsBack (f ∷ fs) r rest h s =
    let more = fields_layout fs in
    let front = subst (StandsAt r) (append_assoc (field_layout f) more rest) s in
    let (found, behind) = read_as-Found r (more ++ rest) f h.0 front in
    (found, fields-ReadsBack fs (read_as true f r).0 rest h.1 behind)

-- What the put functions of windowwire.c wrote, the read functions give back. If any sequence of values is
-- put on a message, and the message is ok after it, then a reader that is ok and stands where the message
-- ended before, on the bytes of the message and any that follow, gives every value of the sequence in its
-- order when it reads with the functions for the same types and each string gets memory, and then stands
-- before what follows. A number is a value of its C type; byte strings, which may be absent where that is
-- allowed, have at most 8 MiB, and strings no 0.
pub read_as-put_fields :
    (realloc : ℕ → Bool) (m : Message) (fs : List Field) (r : WindowReader) (rest : List ℕ)
    → IsShort m
    → All IsField fs
    → (put_fields realloc m fs).ok ≡ true
    → r.ok ≡ true
    → r.offset ≡ length m.bytes
    → r.bytes ≡ (put_fields realloc m fs).bytes ++ rest
    → ReadsBack fs r rest
read_as-put_fields realloc m fs r rest short h fine ready at_end same =
    let all = fields_layout fs in
    let written = ((Puts-fields realloc fs h m short).sound fine).1 in
    let bytes : r.bytes ≡ m.bytes ++ (all ++ rest) =
      same ∙ ap (λ b. b ++ rest) written ∙ append_assoc m.bytes all rest in
    fields-ReadsBack fs r rest h (record {
      ready = ready;
      within = omega (arith, ap length bytes, length-append m.bytes (all ++ rest));
      next_bytes =
          ap (λ k. drop k r.bytes) at_end
          ∙ ap (drop (length m.bytes)) bytes
          ∙ drop-append m.bytes (all ++ rest);
    })
