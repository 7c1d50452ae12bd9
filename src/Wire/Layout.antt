-- ===== src/Wire/Layout.antt =====
-- The bytes of a window frame on the wire, written down field by field, and that put_frame writes them.
use mathlib.Core.Path.{subst}
use native_pipe.Base.{
  ℕ, ◌+◌, ◌*◌, ap, is_some, if◌then◌else◌, ◌/◌, ◌%◌, ◌^◌, ◌≤◌, ◌≡◌, sym, Bool, false, Option, none,
  some, List, [], ◌∷◌, ◌++◌, ltb, length, arith, append-nil,
}
use native_pipe.Base.Bytes.{le16, le32}
use native_pipe.Base.Int.{ℤ}
use native_pipe.Wire.{
  Message, Rect, FloatRect, WindowFrame, append, put_bytes, put_rect, put_rects, put_float_rect,
  put_pair, put_context, put_if, put_fixed, put_extras, put_frame, frame_flags, u32_of, max_field,
  max_collection, put_u32, put_u64,
}
use native_pipe.Wire.Writer.{Wrote, append-Wrote, Wrote-trans, IsShort}

-- One field after the other.
infixl 55 ◌<+>◌
abbrev pub ◌<+>◌ : List ℕ → List ℕ → List ℕ
xs <+> ys = xs ++ ys

abbrev pub i32_layout : ℤ → List ℕ
i32_layout a = le32 (u32_of a)

abbrev pub u64_layout : ℕ → List ℕ
u64_layout n = le32 (n % 2 ^ 32) <+> le32 (n / 2 ^ 32 % 2 ^ 32)

abbrev pub rect_layout : Rect → List ℕ
rect_layout r = i32_layout r.x <+> i32_layout r.y <+> i32_layout r.width <+> i32_layout r.height

abbrev pub float_rect_layout : FloatRect → List ℕ
float_rect_layout r =
    u64_layout r.x <+> u64_layout r.y <+> u64_layout r.width <+> u64_layout r.height

abbrev pub bytes_layout : List ℕ → List ℕ
bytes_layout bs = le32 (length bs) <+> bs

abbrev pub optional_layout {ℓ} : {A : Type ℓ} → (A → List ℕ) → Option A → List ℕ
optional_layout f none = []
optional_layout f (some a) = f a

abbrev pub rects_layout : List Rect → List ℕ
rects_layout [] = []
rects_layout (r ∷ rs) = rect_layout r ++ rects_layout rs

-- A word by its bits, the lowest first.
abbrev pub word_of : List Bool → ℕ
word_of [] = 0
word_of (b ∷ bs) = (if b then 1 else 0) + 2 * word_of bs

-- The flags word: which fields follow, from bit 0 on, and whether the frame asks for feedback.
abbrev pub flags_layout : WindowFrame → List ℕ
flags_layout f = le32 (
    word_of (
      is_some f.viewport_source
      ∷ is_some f.viewport_destination
      ∷ is_some f.window_geometry
      ∷ is_some f.codec
      ∷ is_some f.gpu_source_id
      ∷ is_some f.presentation_context
      ∷ f.requests_presentation_feedback
      ∷ []))

abbrev pub fixed_layout : WindowFrame → List ℕ
fixed_layout f =
    le32 f.resource_id
    <+> i32_layout f.width
    <+> i32_layout f.height
    <+> i32_layout f.bytes_per_row
    <+> i32_layout f.scale
    <+> (f.format ∷ [])
    <+> (f.source ∷ [])
    <+> le16 f.bitstream_epoch
    <+> le32 f.presentation_id
    <+> flags_layout f
    <+> le32 (length f.damage)

abbrev pub extras_layout : WindowFrame → List ℕ
extras_layout f =
    optional_layout float_rect_layout f.viewport_source
    <+> optional_layout (λ p. i32_layout p.0 <+> i32_layout p.1) f.viewport_destination
    <+> optional_layout rect_layout f.window_geometry
    <+> optional_layout bytes_layout f.codec
    <+> optional_layout le32 f.gpu_source_id
    <+> rects_layout f.damage
    <+> optional_layout (λ c. u64_layout c.0 <+> u64_layout c.1 <+> u64_layout c.2)
        f.presentation_context

-- A codec name that a frame can carry.
abbrev pub IsShortName : Option (List ℕ) → Type 0
IsShortName none = Unit {0}
IsShortName (some bs) = length bs ≤ max_field

module _ (realloc : ℕ → Bool) where
  -- What a put function that writes these bytes does with every message.
  abbrev pub Puts : (Message → Message) → List ℕ → Type 0
  Puts put bs = (m : Message) → IsShort m → Wrote realloc m bs (put m)

  pub Puts-append : (bs : List ℕ) → length bs ≤ 2 ^ 32 → Puts (λ m. append realloc m bs) bs
  Puts-append bs k m h = append-Wrote realloc m bs h k

  pub Puts-trans :
      {p q : Message → Message} (xs ys : List ℕ)
      → Puts p xs
      → Puts q ys
      → Puts (λ m. q (p m)) (xs ++ ys)
  Puts-trans {p} {q} xs ys h k m s =
      Wrote-trans realloc m (p m) (q (p m)) xs ys (h m s) (k (p m) ((h m s).short))

  pub Puts-nil : Puts (λ m. m) []
  Puts-nil m s = record {
    sound = λ e. (e, sym (append-nil m.bytes));
    room = λ r. r;
    short = s;
    exact = λ g. ground arith;
  }

  pub Puts-u32 : (n : ℕ) → Puts (λ m. put_u32 realloc m n) (le32 n)
  Puts-u32 n = Puts-append (le32 n) (omega arith)

  pub Puts-u64 : (n : ℕ) → Puts (λ m. put_u64 realloc m n) (u64_layout n)
  Puts-u64 n =
      Puts-trans (le32 (n % 2 ^ 32)) (le32 (n / 2 ^ 32 % 2 ^ 32)) (Puts-u32 (n % 2 ^ 32))
        (Puts-u32 (n / 2 ^ 32 % 2 ^ 32))

  pub Puts-i32 : (a : ℤ) → Puts (λ m. put_u32 realloc m (u32_of a)) (i32_layout a)
  Puts-i32 a = Puts-u32 (u32_of a)

  Puts-rect : (r : Rect) → Puts (λ m. put_rect realloc m r) (rect_layout r)
  Puts-rect r =
      let xy = Puts-trans (i32_layout r.x) (i32_layout r.y) (Puts-i32 r.x) (Puts-i32 r.y) in
      let xyw =
        Puts-trans (i32_layout r.x <+> i32_layout r.y) (i32_layout r.width) xy (Puts-i32 r.width) in
      Puts-trans (i32_layout r.x <+> i32_layout r.y <+> i32_layout r.width) (i32_layout r.height)
        xyw (Puts-i32 r.height)

  Puts-float_rect : (r : FloatRect) → Puts (λ m. put_float_rect realloc m r) (float_rect_layout r)
  Puts-float_rect r =
      let xy = Puts-trans (u64_layout r.x) (u64_layout r.y) (Puts-u64 r.x) (Puts-u64 r.y) in
      let xyw =
        Puts-trans (u64_layout r.x <+> u64_layout r.y) (u64_layout r.width) xy (Puts-u64 r.width) in
      Puts-trans (u64_layout r.x <+> u64_layout r.y <+> u64_layout r.width) (u64_layout r.height)
        xyw (Puts-u64 r.height)

  Puts-pair : (p : ℤ × ℤ) → Puts (λ m. put_pair realloc m p) (i32_layout p.0 <+> i32_layout p.1)
  Puts-pair p = Puts-trans (i32_layout p.0) (i32_layout p.1) (Puts-i32 p.0) (Puts-i32 p.1)

  Puts-context :
      (c : ℕ × ℕ × ℕ)
      → Puts (λ m. put_context realloc m c) (u64_layout c.0 <+> u64_layout c.1 <+> u64_layout c.2)
  Puts-context c =
      Puts-trans (u64_layout c.0 <+> u64_layout c.1) (u64_layout c.2)
        (Puts-trans (u64_layout c.0) (u64_layout c.1) (Puts-u64 c.0) (Puts-u64 c.1)) (Puts-u64 c.2)

  pub Puts-bytes :
      (bs : List ℕ) → length bs ≤ max_field → Puts (λ m. put_bytes realloc m bs) (bytes_layout bs)
  unfolding put_bytes
  Puts-bytes bs k m s =
      let fits : ltb max_field (length bs) ≡ false = ground arith in
      rw fits
        (Puts-trans (le32 (length bs)) bs (Puts-u32 (length bs)) (Puts-append bs (omega arith)) m s)

  Puts-rects : (rs : List Rect) → Puts (λ m. put_rects realloc m rs) (rects_layout rs)
  Puts-rects [] = Puts-nil
  Puts-rects (r ∷ rs) = Puts-trans (rect_layout r) (rects_layout rs) (Puts-rect r) (Puts-rects rs)

  -- A field that may be absent.
  module _ {A : Type 0} (put : Message → A → Message) (layout : A → List ℕ) where
    Puts-if :
        ((a : A) → Puts (λ m. put m a) (layout a))
        → (o : Option A) → Puts (λ m. put_if put m o) (optional_layout layout o)
    Puts-if h none = Puts-nil
    Puts-if h (some a) = h a

  Puts-codec :
      (o : Option (List ℕ))
      → IsShortName o
      → Puts (λ m. put_if (put_bytes realloc) m o) (optional_layout bytes_layout o)
  Puts-codec none k = Puts-nil
  Puts-codec (some bs) k = Puts-bytes bs k

  -- The fields, first to last.
  module _ (f : WindowFrame) where
    flags_word : le32 (frame_flags f) ≡ flags_layout f
    unfolding frame_flags
    flags_word = ap le32 (ground arith)

    Puts-flags : Puts (λ m. put_u32 realloc m (frame_flags f)) (flags_layout f)
    Puts-flags =
        subst (Puts (λ m. put_u32 realloc m (frame_flags f))) flags_word (Puts-u32 (frame_flags f))

    Puts-fixed : Puts (λ m. put_fixed realloc m f) (fixed_layout f)
    unfolding put_fixed
    Puts-fixed =
        let a = Puts-trans _ _ (Puts-u32 f.resource_id) (Puts-i32 f.width) in
        let b = Puts-trans _ _ a (Puts-i32 f.height) in
        let c = Puts-trans _ _ b (Puts-i32 f.bytes_per_row) in
        let e = Puts-trans _ _ c (Puts-i32 f.scale) in
        let g = Puts-trans _ _ e (Puts-append (f.format ∷ []) (omega arith)) in
        let h = Puts-trans _ _ g (Puts-append (f.source ∷ []) (omega arith)) in
        let i = Puts-trans _ _ h (Puts-append (le16 f.bitstream_epoch) (omega arith)) in
        let j = Puts-trans _ _ i (Puts-u32 f.presentation_id) in
        let k = Puts-trans _ _ j Puts-flags in Puts-trans _ _ k (Puts-u32 (length f.damage))

    Puts-extras : IsShortName f.codec → Puts (λ m. put_extras realloc m f) (extras_layout f)
    unfolding put_extras
    Puts-extras named =
        let a =
          Puts-if (put_float_rect realloc) float_rect_layout Puts-float_rect f.viewport_source in
        let b = Puts-trans _ _ a (
          Puts-if (put_pair realloc) (λ p. i32_layout p.0 <+> i32_layout p.1) Puts-pair
            f.viewport_destination) in
        let c =
          Puts-trans _ _ b (Puts-if (put_rect realloc) rect_layout Puts-rect f.window_geometry) in
        let e = Puts-trans _ _ c (Puts-codec f.codec named) in
        let g = Puts-trans _ _ e (Puts-if (put_u32 realloc) le32 Puts-u32 f.gpu_source_id) in
        let h = Puts-trans _ _ g (Puts-rects f.damage) in
        Puts-trans _ _ h (
          Puts-if (put_context realloc) (λ c. u64_layout c.0 <+> u64_layout c.1 <+> u64_layout c.2)
            Puts-context f.presentation_context)

-- A window frame of at most 4096 damage rectangles, with a codec name of at most 8 MiB if it has one,
-- makes a message that is still ok exactly its old bytes followed by the fields of the frame in the order
-- of the wire, with one bit of the flags word, in its place, for each field that may be absent and one for
-- the feedback. The bytes stay within the allocated memory, and when the allocator always gives memory the
-- message is ok afterwards if and only if it was before and is no longer than the limit with them.
pub put_frame-Wrote :
    (realloc : ℕ → Bool) (m : Message) (f : WindowFrame)
    → IsShort m
    → length f.damage ≤ max_collection
    → IsShortName f.codec
    → Wrote realloc m (fixed_layout f ++ extras_layout f) (put_frame realloc m f)
unfolding put_frame
put_frame-Wrote realloc m f s few named =
    let allowed : ltb max_collection (length f.damage) ≡ false = ground arith in
    rw allowed (
      Puts-trans realloc (fixed_layout f) (extras_layout f) (Puts-fixed realloc f)
        (Puts-extras realloc f named) m s)
