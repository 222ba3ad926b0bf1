-- ===== src/Session/Conformity.antt =====
-- Which sequences of frames a client may send by RFC 6455, section 5.4, said of the frames alone, and
-- that these come where the session takes them.
use libwebsocket_component.Prelude.{
  ℕ, ◌+◌, ◌%◌, ◌<◌, ◌≡◌, refl, inl, inr, arith, ◌⊎◌, List, [], ◌∷◌, length, length-append, Option,
  none, some,
}
use libwebsocket_component.Frame.{
  FinE, frame_continue, frame_finished, OpcodeE, segment_message, text_message, binary_message,
  close_message, ping_message, pong_message, reserved,
}
use libwebsocket_component.Session.{
  ClientFrame, Session, receive_as, receive, FitsAs, IsOctets, AlignedAs, FitsAll,
}

-- Whether a message is in progress, and then how many octets of it have come: a continuation needs
-- one, and stands at a multiple of four octets of it; a text or binary frame needs that there is none;
-- a control frame may come at any time, is final and has fewer than 126 octets.
abbrev pub FollowsAs : OpcodeE → FinE → ℕ → Option ℕ → Type 0
FollowsAs segment_message fin n none = ⊥
FollowsAs segment_message fin n (some k) = k % 4 ≡ 0
FollowsAs text_message fin n none = Unit {0}
FollowsAs text_message fin n (some k) = ⊥
FollowsAs binary_message fin n none = Unit {0}
FollowsAs binary_message fin n (some k) = ⊥
FollowsAs reserved fin n m = ⊥
FollowsAs close_message fin n m = (fin ≡ frame_finished) × (n < 126)
FollowsAs ping_message fin n m = (fin ≡ frame_finished) × (n < 126)
FollowsAs pong_message fin n m = (fin ≡ frame_finished) × (n < 126)

abbrev octets_so_far : Option ℕ → ℕ
octets_so_far none = 0
octets_so_far (some k) = k

abbrev data_progress : FinE → ℕ → Option ℕ → Option ℕ
data_progress frame_continue n m = some (octets_so_far m + n)
data_progress frame_finished n m = none

-- The message in progress after a frame.
abbrev pub progress_as : OpcodeE → FinE → ℕ → Option ℕ → Option ℕ
progress_as segment_message fin n m = data_progress fin n m
progress_as text_message fin n m = data_progress fin n m
progress_as binary_message fin n m = data_progress fin n m
progress_as close_message fin n m = none
progress_as _ fin n m = m

-- Nothing comes after a Close frame.
abbrev pub LastIfClose : OpcodeE → List ClientFrame → Type 0
LastIfClose close_message fs = fs ≡ []
LastIfClose _ fs = Unit {0}

abbrev pub IsStream : Option ℕ → List ClientFrame → Type 0
IsStream m [] = Unit {0}
IsStream m (f ∷ fs) =
    IsOctets f
    × FollowsAs f.opcode f.fin (length f.payload) m
    × LastIfClose f.opcode fs
    × IsStream (progress_as f.opcode f.fin (length f.payload) m) fs

-- The session puts that message together.
abbrev Holds : Option ℕ → Session → Type 0
Holds none σ = σ.pending ≡ []
Holds (some k) σ =
    (length σ.pending ≡ k) × ((σ.data_type ≡ text_message) ⊎ (σ.data_type ≡ binary_message))

-- A frame that may follow comes where the session takes it, and the session still keeps pace.
follows-Holds :
    (op : OpcodeE) (fin : FinE) (p : List ℕ) (m : Option ℕ) (σ : Session)
    → FollowsAs op fin (length p) m
    → Holds m σ
    → FitsAs op fin (length p) σ
      × AlignedAs op σ
      × Holds (progress_as op fin (length p) m) (receive_as op fin p σ)
follows-Holds segment_message fin p none σ h e = absurd h
follows-Holds segment_message frame_continue p (some k) σ h (e, t) =
    (t, rw e h, (omega (arith, e, length-append σ.pending p), t))
follows-Holds segment_message frame_finished p (some k) σ h (e, t) = (t, rw e h, refl)
follows-Holds text_message frame_continue p none σ h e = (e, tt, (rw e (omega arith), inl refl))
follows-Holds text_message frame_finished p none σ h e = (e, tt, refl)
follows-Holds text_message fin p (some k) σ h e = absurd h
follows-Holds binary_message frame_continue p none σ h e = (e, tt, (rw e (omega arith), inr refl))
follows-Holds binary_message frame_finished p none σ h e = (e, tt, refl)
follows-Holds binary_message fin p (some k) σ h e = absurd h
follows-Holds reserved fin p m σ h e = absurd h
follows-Holds close_message fin p m σ h e = (h, tt, refl)
follows-Holds ping_message fin p none σ h e = (h, tt, e)
follows-Holds ping_message fin p (some k) σ h e = (h, tt, e)
follows-Holds pong_message fin p none σ h e = (h, tt, e)
follows-Holds pong_message fin p (some k) σ h e = (h, tt, e)

IsStream-Holds :
    (fs : List ClientFrame) (m : Option ℕ) (σ : Session) → IsStream m fs → Holds m σ → FitsAll fs σ
IsStream-Holds [] m σ h e = tt
IsStream-Holds (f ∷ fs) m σ (o, h, l, hs) e =
    let (fits, aligned, next) = follows-Holds f.opcode f.fin f.payload m σ h e in
    (
      (o, fits),
      aligned,
      IsStream-Holds fs (progress_as f.opcode f.fin (length f.payload) m) (receive f σ) hs next,
    )

-- A conforming sequence of frames may come in every session with no message in progress.
pub IsStream-FitsAll :
    (fs : List ClientFrame) (σ : Session) → σ.pending ≡ [] → IsStream none fs → FitsAll fs σ
IsStream-FitsAll fs σ e h = IsStream-Holds fs none σ h e
