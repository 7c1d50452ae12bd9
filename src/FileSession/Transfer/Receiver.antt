-- ===== src/FileSession/Transfer/Receiver.antt =====
-- The peer's dispatch puts the bytes of DATA frames into the stream's inbox, in order.
use mathlib.Core.Path.{subst}
use native_pipe.Base.{
  ℕ, ◌+◌, ◌%◌, ◌^◌, ◌≤◌, ◌<◌, ◌≡◌, refl, sym, ◌∙◌, ap, Bool, true, false, ◌||◌, Option, none, some,
  List, [], ◌∷◌, ◌++◌, ◌==◌, if◌then◌else◌, length, arith, length-append, append_assoc, append-nil,
}
use native_pipe.FileSession.State.{Session, Stream, Inbound, payload, frame_max, stream_data_max}
use native_pipe.FileSession.Streams.{find_stream, store}
use native_pipe.FileSession.Dispatch.{done, dispatch, on_data}
use native_pipe.FileSession.Calls.{Frame, end_flag}
use native_pipe.FileSession.Invariant.{IsValid, StreamIsValid}
use native_pipe.FileSession.Invariant.StreamList.{find_stream-put_stream, find_stream-All}
use native_pipe.FileSession.Invariant.Received.{dispatch-IsValid}
use native_pipe.FileSession.Transfer.{carried, IsDataOf, deliver, inbox_data}

-- A stream of a valid session that still takes DATA.
pub record CanReceive (s : Session) (t : Stream) : Type 0 where
  pub valid : IsValid s
  pub found : find_stream s.streams t.id ≡ some t
  pub kept : t.cancelled ≡ false
  pub unended : t.remote_ended ≡ false
  pub answered : (t.responder || t.responded) ≡ true

-- The stream after one DATA frame.
abbrev after_data : Stream → Bool → List ℕ → Stream
after_data t end body = record t {
  received = t.received + length body;
  remote_ended = t.remote_ended || end;
  inbox =
      if length body == 0
      then t.inbox
      else t.inbox ++ (record { kind = payload; end = end; status = 0; body = body } ∷ []);
}

stream-IsValid :
    (s : Session) (t : Stream) → CanReceive s t → StreamIsValid s.role s.next_id s.last_peer_id t
stream-IsValid s t can =
    (find_stream-All (StreamIsValid s.role s.next_id s.last_peer_id) s.streams t.id {t = t}
      can.valid.each can.found).0

dispatch-data :
    (s : Session) (t : Stream) (flags : ℕ) (body : List ℕ)
    → CanReceive s t
    → t.received + length body ≤ stream_data_max
    → dispatch true s payload flags t.id body
      ≡ done (store s (after_data t (flags % 2 == 1) body)) none
unfolding dispatch on_data
dispatch-data s t flags body can room = ground (arith, stream-IsValid s t can)

inbox_data-append : (ms ns : List Inbound) → inbox_data (ms ++ ns) ≡ inbox_data ms ++ inbox_data ns
inbox_data-append [] ns = refl
inbox_data-append (m ∷ ms) ns = rw (inbox_data-append ms ns, append_assoc)

inbox_data-after_data :
    (t : Stream) (end : Bool) (body : List ℕ)
    → inbox_data (after_data t end body).inbox ≡ inbox_data t.inbox ++ body
inbox_data-after_data t end [] = sym (append-nil (inbox_data t.inbox))
inbox_data-after_data t end (b ∷ bs) =
    let some_bytes : (length (b ∷ bs) == 0) ≡ false = ground arith in
    rw some_bytes
      (inbox_data-append t.inbox _ ∙ ap (λ k. inbox_data t.inbox ++ k) (append-nil (b ∷ bs)))

-- What the peer's stream has become.
abbrev pub Took : Session → Stream → List ℕ → Bool → Option Session → Type 0
Took s t bytes end none = ⊥
Took s t bytes end (some u) =
    (t' : Stream) × (find_stream u.streams t.id ≡ some t')
    × (inbox_data t'.inbox ≡ inbox_data t.inbox ++ bytes)
    × (t'.received ≡ t.received + length bytes)
    × (t'.remote_ended ≡ end)
    × IsValid u

-- One frame, by the fields that IsDataOf tells of it.
deliver-cons :
    (s : Session) (t : Stream) (f : Frame) (fs : List Frame) (last : Bool)
    → CanReceive s t
    → f.kind ≡ payload
    → f.id ≡ t.id
    → f.prefix ≡ []
    → f.flags ≡ end_flag last
    → t.received + length f.body ≤ stream_data_max
    → deliver true s (f ∷ fs) ≡ deliver true (store s (after_data t last f.body)) fs
unfolding deliver
deliver-cons s t f fs last can ek ei ep ef room =
    let flag : (f.flags % 2 == 1) ≡ last = ground arith in
    let one : dispatch true s f.kind f.flags f.id (f.prefix ++ f.body)
        ≡ done (store s (after_data t last f.body)) none =
      rw (ek, ei, ep) (dispatch-data s t f.flags f.body can room ∙ rw flag) in
    cc one

-- The stream is still one of a valid session, and found.
after_data-keeps :
    (s : Session) (t : Stream) (last : Bool) (body : List ℕ)
    → CanReceive s t
    → length body ≤ frame_max
    → t.received + length body ≤ stream_data_max
    → IsValid (store s (after_data t last body))
      × (find_stream (store s (after_data t last body)).streams t.id
          ≡ some (after_data t last body))
after_data-keeps s t last body can small room =
    let sv = stream-IsValid s t can in
    let narrow : t.id < 2 ^ 32 = ground (arith, sv, can.valid) in
    let flag : (end_flag last % 2 == 1) ≡ last = ground arith in
    let kept = dispatch-IsValid true s payload (end_flag last) t.id body narrow small can.valid in
    (
      subst (λ b. IsValid (store s (after_data t b body))) flag
          (rw (dispatch-data s t (end_flag last) body can room) at kept),
      find_stream-put_stream (after_data t last body) s.streams {t = t} can.found,
    )

-- The rest of the frames after the first.
Took-cons :
    (s : Session) (t u : Stream) (body bytes : List ℕ) (end : Bool) (o : Option Session)
    → u.id ≡ t.id
    → inbox_data u.inbox ≡ inbox_data t.inbox ++ body
    → u.received ≡ t.received + length body
    → Took s u bytes end o
    → Took s t (body ++ bytes) end o
Took-cons s t u body bytes end none same queue count w = w
Took-cons s t u body bytes end (some v) same queue count (t', found, got, total, ended, ok) = (
  t',
  subst (λ k. find_stream v.streams k ≡ some t') same found,
  got ∙ rw (queue, append_assoc),
  omega (arith, length-append body bytes),
  ended,
  ok,
)

pub deliver-Took :
    (s : Session) (t : Stream) (fs : List Frame) (end : Bool)
    → CanReceive s t
    → IsDataOf t.id end fs
    → t.received + length (carried fs) ≤ stream_data_max
    → Took s t (carried fs) end (deliver true s fs)
unfolding deliver
deliver-Took s t [] end can h room = absurd h
deliver-Took s t (f ∷ []) end can (k, i, p, b, e) room =
    let fits : t.received + length f.body ≤ stream_data_max =
      omega (arith, length-append f.body []) in
    let (valid, found) = after_data-keeps s t end f.body can b fits in
    rw (deliver-cons s t f [] end can k i p e fits) (
      after_data t end f.body,
      found,
      rw append-nil (inbox_data-after_data t end f.body),
      rw append-nil,
      ground (arith, can.unended),
      valid,
    )
deliver-Took s t (f ∷ g ∷ fs) end can (k, i, p, b, e, h) room =
    let sum = length-append f.body (carried (g ∷ fs)) in
    let fits : t.received + length f.body ≤ stream_data_max = omega arith in
    let (valid, found) = after_data-keeps s t false f.body can b fits in
    let u = after_data t false f.body in
    let can' : CanReceive (store s u) u = record {
      valid = valid;
      found = found;
      kept = can.kept;
      unended = ground (arith, can.unended);
      answered = can.answered;
    } in
    rw (deliver-cons s t f (g ∷ fs) false can k i p e fits) (
      Took-cons s t u f.body (carried (g ∷ fs)) end _ refl (inbox_data-after_data t false f.body)
        refl (deliver-Took (store s u) u (g ∷ fs) end can' h (omega arith)))
