-- ===== src/FileSession/Frame/RoundTrip.antt =====
-- What one side writes the other reads, and nothing else is read.
use native_pipe.Base.{
  ℕ, ◌+◌, ◌≤◌, ◌≡◌, refl, sym, ap, ◌∙◌, true, false, Option, none, some, List, [], ◌∷◌, ◌++◌, arith,
  ltb, length, take, drop, length-append, take-append, drop-append, append_assoc, take-append-drop,
  All, All-prefix, length-take,
}
use native.Mathlib.Nat.{zero-add}
use native_pipe.Base.Bytes.{IsU32, IsByte, from_le32-le32}
use native_pipe.FileSession.State.{
  FrameType, hello, request, response, payload, notify, cancel, frame_max, header_size,
}
use native_pipe.FileSession.Frame.{
  Header, frame, frame_header, frame_bytes, flags_allowed, check_header, read_frame, read_body,
}

abbrev header : FrameType → ℕ → ℕ → ℕ → Header
header kind flags id size = record { kind = kind; flags = flags; id = id; length = size }

check_header-frame_header :
    (kind : FrameType) (flags id size : ℕ)
    → IsU32 id
    → size ≤ frame_max
    → flags_allowed kind flags ≡ true
    → check_header (frame_header kind flags id size) ≡ some (header kind flags id size)
unfolding check_header frame_header
check_header-frame_header hello flags id size hi hs ok =
    ground (arith, from_le32-le32 id, from_le32-le32 size)
check_header-frame_header request flags id size hi hs ok =
    ground (arith, from_le32-le32 id, from_le32-le32 size)
check_header-frame_header response flags id size hi hs ok =
    ground (arith, from_le32-le32 id, from_le32-le32 size)
check_header-frame_header payload flags id size hi hs ok =
    ground (arith, from_le32-le32 id, from_le32-le32 size)
check_header-frame_header notify flags id size hi hs ok =
    ground (arith, from_le32-le32 id, from_le32-le32 size)
check_header-frame_header cancel flags id size hi hs ok =
    ground (arith, from_le32-le32 id, from_le32-le32 size)

-- read_frame on 16 bytes that are a header, and what follows.
read_frame-header :
    (h rest : List ℕ)
    → length h ≡ header_size
    → read_frame (h ++ rest) ≡ read_body (check_header h) rest
unfolding read_frame
read_frame-header h rest e =
    let enough : ltb (length (h ++ rest)) 16 ≡ false = ground (arith, length-append h rest) in
    let front : take 16 (h ++ rest) ≡ h =
      ap (λ k. take k (h ++ rest)) (sym e) ∙ take-append h rest in
    let back : drop 16 (h ++ rest) ≡ rest =
      ap (λ k. drop k (h ++ rest)) (sym e) ∙ drop-append h rest in
    rw (enough, front, back)

-- read_body takes exactly the bytes that were announced.
read_body-some :
    (h : Header) (body rest : List ℕ)
    → length body ≡ h.length
    → read_body (some h) (body ++ rest) ≡ frame h body rest
unfolding read_body
read_body-some h body rest e =
    let enough : ltb (length (body ++ rest)) h.length ≡ false =
      ground (arith, length-append body rest) in
    let front : take h.length (body ++ rest) ≡ body =
      ap (λ k. take k (body ++ rest)) (sym e) ∙ take-append body rest in
    let back : drop h.length (body ++ rest) ≡ rest =
      ap (λ k. drop k (body ++ rest)) (sym e) ∙ drop-append body rest in
    rw (enough, front, back)

length-frame_header :
    (kind : FrameType) (flags id size : ℕ) → length (frame_header kind flags id size) ≡ 16
unfolding frame_header
length-frame_header kind flags id size = refl

-- What write_frame_unlocked writes, read_frame reads back, whatever follows on the socket: for every
-- type, identifier and flags that the type may carry, and a body of at most frame_max bytes.
pub read_frame-frame_bytes :
    (kind : FrameType) (flags id : ℕ) (prefix body rest : List ℕ)
    → IsU32 id
    → length prefix + length body ≤ frame_max
    → flags_allowed kind flags ≡ true
    → read_frame (frame_bytes kind flags id prefix body ++ rest)
      ≡ frame (header kind flags id (length prefix + length body)) (prefix ++ body) rest
unfolding frame_bytes
read_frame-frame_bytes kind flags id prefix body rest hi hs ok =
    let size = length prefix + length body in
    let head = frame_header kind flags id size in
    rw (append_assoc head (prefix ++ body) rest) (
      read_frame-header head ((prefix ++ body) ++ rest) (length-frame_header kind flags id size)
      ∙ ap (λ o. read_body o ((prefix ++ body) ++ rest))
          (check_header-frame_header kind flags id size hi hs ok)
      ∙ read_body-some (header kind flags id size) (prefix ++ body) rest
          (length-append prefix body))

-- A header that passes the checks is the one that frame_header writes for what was read from it.
check_header_sound :
    (a b c d e f g h i j k l m n o p : ℕ) {q : Header}
    → All IsByte (a ∷ b ∷ c ∷ d ∷ e ∷ f ∷ g ∷ h ∷ i ∷ j ∷ k ∷ l ∷ m ∷ n ∷ o ∷ p ∷ [])
    → check_header (a ∷ b ∷ c ∷ d ∷ e ∷ f ∷ g ∷ h ∷ i ∷ j ∷ k ∷ l ∷ m ∷ n ∷ o ∷ p ∷ []) ≡ some q
    → (frame_header q.kind q.flags q.id q.length
        ≡ a ∷ b ∷ c ∷ d ∷ e ∷ f ∷ g ∷ h ∷ i ∷ j ∷ k ∷ l ∷ m ∷ n ∷ o ∷ p ∷ [])
      × IsU32 q.id
      × (q.length ≤ frame_max)
      × (flags_allowed q.kind q.flags ≡ true)
unfolding check_header frame_header
check_header_sound a b c d e f g h i j k l m n o p small ok = ground arith

read_body-frame :
    (o : Option Header) (rest : List ℕ) {q : Header} {body after : List ℕ}
    → read_body o rest ≡ frame q body after
    → (o ≡ some q) × (rest ≡ body ++ after) × (length body ≡ q.length)
unfolding read_body
read_body-frame none rest e = cc
read_body-frame (some h) rest e =
    ground (arith, take-append-drop h.length rest, length-take h.length rest)

-- What read_frame accepts, write_frame_unlocked would have written: the bytes are those of a frame
-- with an allowed header, a 32-bit identifier and at most frame_max bytes, and those that follow it.
pub read_frame_sound :
    (bytes : List ℕ) {q : Header} {body after : List ℕ}
    → All IsByte bytes
    → read_frame bytes ≡ frame q body after
    → (bytes ≡ frame_bytes q.kind q.flags q.id [] body ++ after)
      × IsU32 q.id
      × (length body ≡ q.length)
      × (q.length ≤ frame_max)
      × (flags_allowed q.kind q.flags ≡ true)
read_frame_sound (a ∷ b ∷ c ∷ d ∷ e ∷ f ∷ g ∷ h ∷ i ∷ j ∷ k ∷ l ∷ m ∷ n ∷ o ∷ p ∷ r) {q} {body}
      {after} small ok =
    let head : List ℕ = a ∷ b ∷ c ∷ d ∷ e ∷ f ∷ g ∷ h ∷ i ∷ j ∷ k ∷ l ∷ m ∷ n ∷ o ∷ p ∷ [] in
    let (checked, cut, size) =
      read_body-frame (check_header head) r (sym (read_frame-header head r refl) ∙ ok) in
    let (same, id_ok, size_ok, flags_ok) =
      check_header_sound a b c d e f g h i j k l m n o p (All-prefix IsByte head r small) checked in
    (whole head r checked cut size same, id_ok, size, size_ok, flags_ok)
  where
    whole :
        (head r : List ℕ)
        → check_header head ≡ some q
        → r ≡ body ++ after
        → length body ≡ q.length
        → frame_header q.kind q.flags q.id q.length ≡ head
        → head ++ r ≡ frame_bytes q.kind q.flags q.id [] body ++ after
    whole head r checked cut size same =
        unfold frame_bytes in rw (cut, size, zero-add, same, append_assoc)
read_frame_sound _ small ok = unfold read_frame in ground arith
