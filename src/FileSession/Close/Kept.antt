-- ===== src/FileSession/Close/Kept.antt =====
-- The invariant of a session through the sweep of np_file2_session_close.
use native_pipe.Base.{
  ◌+◌, ◌≡◌, ◌≢◌, refl, sym, ◌∙◌, ap, true, false, some, List, [], ◌∷◌, ◌++◌, append_assoc, length,
  All, arith, Bool-cases, inl, inr, ◌⊎◌, is_some,
}
use native_pipe.FileSession.State.{Session, Stream}
use native_pipe.FileSession.Streams.{find_stream, unlink, maybe_destroy}
use native_pipe.FileSession.Close.{sweep, close_session}
use native_pipe.FileSession.Close.Freed.{unlink-behind, Distinct-split, sweep-held}
use native_pipe.FileSession.Invariant.{IsValid, Distinct, StreamIsValid}
use native_pipe.FileSession.Invariant.StreamList.{
  unlink-All, unlink-Distinct, length-unlink, responders-unlink,
}

find_stream-behind :
    (kept : List Stream) (t : Stream) (ts : List Stream)
    → All (λ u. u.id ≢ t.id) kept
    → find_stream (kept ++ (t ∷ ts)) t.id ≡ some t
unfolding find_stream
find_stream-behind [] t ts h = ground arith
find_stream-behind (u ∷ kept) t ts h = ground (arith, find_stream-behind kept t ts h.1)

-- The stream stays, or it is unlinked.
maybe_destroy-streams :
    (s : Session) (t : Stream)
    → (maybe_destroy s t ≡ (s, false)) ⊎ ((maybe_destroy s t).0.streams ≡ unlink t.id s.streams)
unfolding maybe_destroy
maybe_destroy-streams s t = ground arith

-- What the end of any one stream of the list keeps, the sweep keeps.
module _ (P : Session → Type 0)
    (keep : (s : Session) (t : Stream)
      → find_stream s.streams t.id ≡ some t
      → P s
      → P (maybe_destroy s t).0) where
  sweep-keeps :
      (kept ts : List Stream) (s : Session)
      → s.streams ≡ kept ++ ts
      → Distinct (kept ++ ts)
      → P s
      → P (sweep ts s).0
  unfolding sweep
  sweep-keeps kept [] s e d p = p
  sweep-keeps kept (t ∷ ts) s e d p =
      let (apart, d') = Distinct-split kept t ts d in
      let found = ap (λ l. find_stream l t.id) e ∙ find_stream-behind kept t ts apart in
      let next = keep s t found p in
      let snoc = append_assoc kept (t ∷ []) ts in
      elim (Bool-cases (maybe_destroy s t).1) [
        | inl freed ↦ rw freed next
        | inr going ↦ elim (maybe_destroy-streams s t) [
          | inl stays ↦ rw going (
              sweep-keeps (kept ++ (t ∷ [])) ts (maybe_destroy s t).0
                (ap (λ r. r.0.streams) stays ∙ e ∙ sym snoc) (rw snoc d) next)
          | inr gone ↦ rw going (
              sweep-keeps kept ts (maybe_destroy s t).0
                (gone ∙ ap (unlink t.id) e ∙ unlink-behind kept t ts apart) d' next)
        ]
      ]

-- A session on the way to its close: valid but for the owner, who still has a reference.
record IsClosing (before s : Session) : Type 0 where
  valid : IsValid (record s { owner_closed = false })
  closed : s.owner_closed ≡ true
  same_error : s.error ≡ before.error
  same_writing : s.writing ≡ before.writing
  same_next : s.next_id ≡ before.next_id

maybe_destroy-IsClosing :
    (before s : Session) (t : Stream)
    → find_stream s.streams t.id ≡ some t
    → IsClosing before s
    → IsClosing before (maybe_destroy s t).0
unfolding maybe_destroy
maybe_destroy-IsClosing before s t found c = ground (
  arith,
  c.valid,
  unlink-All (StreamIsValid s.role s.next_id s.last_peer_id) s.streams t.id c.valid.each,
  unlink-Distinct t.id s.streams c.valid.distinct,
  length-unlink t.id s.streams {t = t} found,
  responders-unlink t.id s.streams {t = t} found,
)

pub close_session-kept :
    (s : Session)
    → IsValid s
    → is_some s.error ≡ true
    → s.owner_closed ≡ false
    → IsValid (close_session s).0
      × ((close_session s).0.writing ≡ s.writing)
      × ((close_session s).0.next_id ≡ s.next_id)
      × ((close_session s).0.error ≡ s.error)
unfolding close_session
close_session-kept s v failed owned =
    let closing : Session = record s { owner_closed = true } in
    let count : s.references ≡ length s.streams + 1 = ground (arith, v.counted) in
    let swept = sweep-held [] s.streams closing refl v.distinct failed count (ground (arith, v)) in
    let first : IsClosing s closing = record {
      valid = ground (arith, v);
      closed = refl;
      same_error = refl;
      same_writing = refl;
      same_next = refl;
    } in
    let c =
      sweep-keeps (IsClosing s) (maybe_destroy-IsClosing s) [] s.streams closing refl v.distinct
        first in
    ground (arith, swept, c, c.valid)
