-- ===== src/FileSession/System/Safety.antt =====
-- What holds in every state that a session reaches, in whatever order its threads run.
use native_pipe.Base.{
  ℕ, suc, ap, ◌⊎◌, append-nil, ◌+◌, ◌≤◌, ◌≡◌, refl, ◌∙◌, Bool, true, false, Option, some, none,
  List, [], ◌∷◌, ◌++◌, length, arith, if◌then◌else◌, length-append, inl, inr,
}
use native_pipe.FileSession.State.{
  Session, Role, host, guest, FrameType, hello, request, response, payload, notify, cancel, Errno,
}
use native_pipe.FileSession.Streams.{is_peer_id, fail, queue_cancel, maybe_destroy}
use native_pipe.FileSession.Dispatch.{
  dispatch, on_cancel, on_request, on_response, on_data, on_notify,
}
use native_pipe.FileSession.Calls.{
  Frame, notify_admit, request_admit, respond_admit, send_admit, receive, cancel_stream,
  drop_reference, control_take, control_admit, finish_write,
}
use native_pipe.FileSession.Invariant.{IsValid}
use native_pipe.FileSession.Invariant.Received.{session_of, dispatch-IsValid}
use native_pipe.FileSession.Invariant.Called.{
  fail-IsValid, finish_write-IsValid, notify_admit-IsValid, control_admit-IsValid,
  request_admit-IsValid, respond_admit-IsValid, send_admit-IsValid, receive-IsValid,
  cancel_stream-IsValid, drop_reference-IsValid, control_take-IsValid,
}
use native_pipe.FileSession.Close.Kept.{close_session-kept}
use native_pipe.FileSession.System.Closed.{
  HoldsOnly, Acts-HoldsOnly, Admits-HoldsOnly, finish_write-HoldsOnly,
}
use native_pipe.FileSession.System.{
  start, System, Admits, notifies, requests, responds, sends, cancels, Acts, reads, fails, takes,
  receives, abandons, releases, closes, Step, act, admit, finish, fresh, Reach, here, later,
  written,
}

start-IsValid : (role : Role) (r n : Bool) → IsValid (start role r n)
unfolding start is_peer_id
start-IsValid host r n = ground arith
start-IsValid guest r n = ground arith

Acts-IsValid : {s t : Session} → Acts s t → IsValid s → IsValid t
Acts-IsValid {s} (reads alloc kind flags id body owned hid hb) v =
    dispatch-IsValid alloc s kind flags id body hid hb v
Acts-IsValid {s} (fails e) v = fail-IsValid s e v
Acts-IsValid {s} (takes owned h) v = control_take-IsValid s h v
Acts-IsValid {s} (receives u found h) v = receive-IsValid s u found v h
Acts-IsValid {s} (abandons alloc u found) v = cancel_stream-IsValid s u found v alloc
Acts-IsValid {s} (releases u found) v = drop_reference-IsValid s u found v
Acts-IsValid {s} (closes failed calm owned) v = (close_session-kept s v failed owned).0

Admits-IsValid : {s t : Session} {f : Frame} → Admits s t f → IsValid s → IsValid t
Admits-IsValid {s} (notifies opcode body h) v = notify_admit-IsValid s opcode body h v
Admits-IsValid {s} (requests alloc opcode body end h) v =
    request_admit-IsValid alloc s opcode body end h v
Admits-IsValid {s} (responds u status body end found h) v =
    respond_admit-IsValid s u found v status body end h
Admits-IsValid {s} (sends u left end found h) v = send_admit-IsValid s u found v left end h
Admits-IsValid {s} (cancels id owned h) v = control_admit-IsValid s id h v

-- What a locked part that writes nothing leaves alone: the gate and the next identifier.
abbrev Keeps : Session → Session → Type 0
Keeps s t = (t.writing ≡ s.writing) × (t.next_id ≡ s.next_id)

dispatch-Keeps :
    (alloc : Bool) (s : Session) (kind : FrameType) (flags id : ℕ) (body : List ℕ)
    → Keeps s (session_of (dispatch alloc s kind flags id body))
unfolding dispatch
dispatch-Keeps alloc s hello flags id body = (refl, refl)
dispatch-Keeps alloc s request flags id body = unfold on_request queue_cancel in ground arith
dispatch-Keeps alloc s response flags id body = unfold on_response in ground arith
dispatch-Keeps alloc s payload flags id body = unfold on_data in ground arith
dispatch-Keeps alloc s notify flags id body = unfold on_notify in ground arith
dispatch-Keeps alloc s cancel flags id body = unfold on_cancel in ground arith

Acts-Keeps : {s t : Session} → IsValid s → Acts s t → Keeps s t
Acts-Keeps {s} v (reads alloc kind flags id body owned hid hb) =
    dispatch-Keeps alloc s kind flags id body
Acts-Keeps v (fails e) = unfold fail in ground arith
Acts-Keeps v (takes owned h) = unfold control_take in ground arith
Acts-Keeps v (receives u found h) = unfold receive in ground arith
Acts-Keeps v (abandons alloc u found) = unfold cancel_stream queue_cancel in ground arith
Acts-Keeps v (releases u found) = unfold drop_reference maybe_destroy in ground arith
Acts-Keeps {s} v (closes failed calm owned) =
    let (valid, writing, next, error) = close_session-kept s v failed owned in (writing, next)

abbrev is_request : Frame → Bool
is_request f = elim f.kind [ request ↦ true | _ ↦ false ]

-- The gate was open and is held, and only a request takes an identifier: the next one.
abbrev Enters : Session → Session → Frame → Type 0
Enters s t f =
    (s.writing ≡ false)
    × (t.writing ≡ true)
    × ((is_request f ≡ false) × (t.next_id ≡ s.next_id)
        ⊎ (is_request f ≡ true) × (f.id ≡ s.next_id) × (t.next_id ≡ s.next_id + 2))

Admits-Enters : {s t : Session} {f : Frame} → Admits s t f → Enters s t f
Admits-Enters (notifies opcode body h) = unfold notify_admit in ground arith
Admits-Enters (requests alloc opcode body end h) = unfold request_admit in ground arith
Admits-Enters (responds u status body end found h) = unfold respond_admit in ground arith
Admits-Enters (sends u left end found h) = unfold send_admit in ground arith
Admits-Enters (cancels id owned h) = unfold control_admit in ground arith

-- The identifiers of the requests among the frames grow from `low` on and stay below `next`.
abbrev pub Rising : ℕ → List Frame → ℕ → Type 0
Rising low [] next = low ≤ next
Rising low (f ∷ fs) next =
    (is_request f ≡ false) × Rising low fs next
    ⊎ (is_request f ≡ true) × (low ≤ f.id) × Rising (f.id + 1) fs next

Rising-other :
    (low next : ℕ) (fs : List Frame) (f : Frame)
    → is_request f ≡ false
    → Rising low fs next
    → Rising low (fs ++ (f ∷ [])) next
Rising-other low next [] f e h = inl (e, h)
Rising-other low next (g ∷ fs) f e (inl (k, h)) = inl (k, Rising-other low next fs f e h)
Rising-other low next (g ∷ fs) f e (inr (k, l, h)) =
    inr (k, l, Rising-other (g.id + 1) next fs f e h)

Rising-request :
    (low next : ℕ) (fs : List Frame) (f : Frame)
    → is_request f ≡ true
    → f.id ≡ next
    → Rising low fs next
    → Rising low (fs ++ (f ∷ [])) (next + 2)
Rising-request low next [] f e i h = inr (e, omega arith, omega arith)
Rising-request low next (g ∷ fs) f e i (inl (k, h)) = inl (k, Rising-request low next fs f e i h)
Rising-request low next (g ∷ fs) f e i (inr (k, l, h)) =
    inr (k, l, Rising-request (g.id + 1) next fs f e i h)

Rising-le : (low next : ℕ) (fs : List Frame) → Rising low fs next → low ≤ next
Rising-le low next [] h = h
Rising-le low next (g ∷ fs) (inl (k, h)) = Rising-le low next fs h
Rising-le low next (g ∷ fs) (inr (k, l, h)) = omega (arith, Rising-le (g.id + 1) next fs h)

-- A frame that was not written whole is left out.
Rising-prefix :
    (low next : ℕ) (fs : List Frame) (f : Frame)
    → Rising low (fs ++ (f ∷ [])) next
    → Rising low fs next
Rising-prefix low next [] f h = Rising-le low next (f ∷ []) h
Rising-prefix low next (g ∷ fs) f (inl (k, h)) = inl (k, Rising-prefix low next fs f h)
Rising-prefix low next (g ∷ fs) f (inr (k, l, h)) = inr (k, l, Rising-prefix (g.id + 1) next fs f h)

abbrev gate_count : Session → ℕ
gate_count s = if s.writing then 1 else 0

-- One thread writes while the gate is held and none else, requests go out in their order, and a closed
-- session has no stream but those that callers hold.
pub record IsOrderly (x : System) : Type 0 where
  pub valid : IsValid x.session
  pub held_only : HoldsOnly x.session
  pub single : length x.in_flight ≡ gate_count x.session
  pub rising : Rising 0 (x.wire ++ x.in_flight) x.session.next_id

nil_of_length : (fs : List Frame) → length fs ≡ 0 → fs ≡ []
nil_of_length [] h = refl
nil_of_length (f ∷ fs) h = absurd (omega arith)

finish_write-keeps :
    (s : Session) (o : Option Errno)
    → ((finish_write s o).writing ≡ false) × ((finish_write s o).next_id ≡ s.next_id)
unfolding finish_write
finish_write-keeps s o = ground arith

-- The frames on the wire after a write that was alone in flight.
written-Rising :
    (o : Option Errno) (f : Frame) (wire : List Frame) (next : ℕ)
    → Rising 0 (wire ++ (f ∷ [])) next
    → Rising 0 (wire ++ written o f) next
written-Rising none f wire next h = h
written-Rising (some e) f wire next h = rw append-nil (Rising-prefix 0 next wire f h)

finish-IsOrderly :
    (x : System) (f : Frame) (before after : List Frame) (o : Option Errno)
    → x.in_flight ≡ before ++ (f ∷ after)
    → IsOrderly x
    → IsOrderly (record {
      session = finish_write x.session o;
      in_flight = before ++ after;
      wire = x.wire ++ written o f;
    })
finish-IsOrderly x f before after o e v =
    let size : length x.in_flight ≡ length before + suc (length after) =
      ap length e ∙ length-append before (f ∷ after) in
    let no_before : before ≡ [] = nil_of_length before (ground (arith, v.single)) in
    let no_after : after ≡ [] = nil_of_length after (ground (arith, v.single)) in
    let (closed, kept) = finish_write-keeps x.session o in
    let alone : x.in_flight ≡ f ∷ [] = e ∙ rw (no_before, no_after) in
    rw (no_before, no_after)
      (record {
        valid = finish_write-IsValid x.session o v.valid;
        held_only = finish_write-HoldsOnly x.session o v.held_only;
        single = rw closed;
        rising =
            rw (append-nil, kept)
              (written-Rising o f x.wire x.session.next_id (rw alone at v.rising));
      })

Step-IsOrderly : {x y : System} → Step x y → IsOrderly x → IsOrderly y
Step-IsOrderly {x} (act {t = t} a) v =
    let (w, n) = Acts-Keeps v.valid a in
    record {
      valid = Acts-IsValid a v.valid;
      held_only = Acts-HoldsOnly v.valid a v.held_only;
      single = rw w v.single;
      rising = rw n v.rising;
    }
Step-IsOrderly {x} (admit {t = t} {f = f} a) v =
    let (was, now, ids) = Admits-Enters a in
    let none_before : x.in_flight ≡ [] = nil_of_length x.in_flight (ground (arith, v.single)) in
    let calm : Rising 0 x.wire x.session.next_id = rw (none_before, append-nil) at v.rising in
    record {
      valid = Admits-IsValid a v.valid;
      held_only = Admits-HoldsOnly a v.held_only;
      single = rw (none_before, now);
      rising = rw none_before (elim ids [
        | inl (other, same) ↦ rw same (Rising-other 0 x.session.next_id x.wire f other calm)
        | inr (req, i, up) ↦ rw up (Rising-request 0 x.session.next_id x.wire f req i calm)
      ]);
    }
Step-IsOrderly {x} (finish f before after o e) v = finish-IsOrderly x f before after o e v

fresh-IsOrderly : (role : Role) (r n : Bool) → IsOrderly (fresh role r n)
fresh-IsOrderly role r n = record {
  valid = start-IsValid role r n;
  held_only = unfold start in inl refl;
  single = unfold start in refl;
  rising = omega arith;
}

-- In every state that a session reaches from its start, before and after its owner closes it, whatever the
-- peer sends and in whatever order its threads run: the session is valid, so that its reference count is
-- that of its streams, and one more for the owner until the close; from the close on it has failed and has
-- no streams but those that callers hold; a frame is in flight exactly while the gate is held, and only
-- one; and the requests written or in flight have identifiers that grow strictly, below the next one.
pub Reach-IsOrderly :
    (role : Role) (r n : Bool) {x : System} → Reach (fresh role r n) x → IsOrderly x
Reach-IsOrderly role r n here = fresh-IsOrderly role r n
Reach-IsOrderly role r n (later path st) = Step-IsOrderly st (Reach-IsOrderly role r n path)
