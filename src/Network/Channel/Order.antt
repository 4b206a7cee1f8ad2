-- ===== src/Network/Channel/Order.antt =====
-- Runs of `send`, `take_pending` and `receive` of network/src/channel.rs.
use real_layer.Base.Bytes.{Bytes}
use real_layer.Base.{
  ℕ, ◌+◌, ◌≤◌, ◌≡◌, ◌≢◌, ◌⊎◌, refl, sym, ◌∙◌, ap, map, List, [], ◌∷◌, none, some, Result, ok, err,
  arith, inl, inr, Option-cases,
}
use real_layer.Network.Session.Types.{SecureSession, SessionError}
use real_layer.Network.Session.Primitives.{Primitives, Laws}
use real_layer.Network.Session.Cipher.{encrypt}
use real_layer.Network.Session.Replay.{ReceivedBelow}
use real_layer.Network.Channel.Types.{
  ChannelMessage, ChannelError, frame_too_large, backpressure, EncryptedChannel, Codec, CodecLaws,
  from_session, type_of,
}
use real_layer.Network.Channel.Sending.{send, encode, finish, take_pending, header_for}
use real_layer.Network.Channel.Receiving.{receive}
use real_layer.Network.Channel.Delivery.{Linked, received, receive-send, send-Linked}

module _ (lib : Primitives) (json : Codec) where
  open lib use {PeerId}

  encrypt_keeps :
      (s : SecureSession PeerId) (plaintext aad : Bytes)
      → let s' = (encrypt lib s plaintext aad).0 in
        (s'.session_id ≡ s.session_id) × (s'.send_key ≡ s.send_key) × (s.send_nonce ≤ s'.send_nonce)
  unfolding encrypt
  encrypt_keeps s plaintext aad = ground arith

  -- The part of a sender on which a link depends.
  record Keeps (a a' : EncryptedChannel PeerId) : Type 0 where
    id : a'.session.session_id ≡ a.session.session_id
    key : a'.session.send_key ≡ a.session.send_key
    nonce : a.session.send_nonce ≤ a'.session.send_nonce
    version : a'.protocol_version ≡ a.protocol_version
    size : a'.maximum_frame_size ≡ a.maximum_frame_size
    sequence : a'.send_sequence ≡ a.send_sequence

  ReceivedBelow-mono : (m n : ℕ) (o : _) → m ≤ n → ReceivedBelow m o → ReceivedBelow n o
  ReceivedBelow-mono m n none h r = tt
  ReceivedBelow-mono m n (some last) h r = omega arith

  Linked-Keeps :
      (a a' b : EncryptedChannel PeerId) → Linked lib json a b → Keeps a a' → Linked lib json a' b
  Linked-Keeps a a' b l k = record {
    same_id = k.id ∙ l.same_id;
    same_version = k.version ∙ l.same_version;
    key = l.key ∙ sym k.key;
    session_live = l.session_live;
    live = l.live;
    in_step = k.sequence ∙ l.in_step;
    below = ReceivedBelow-mono _ _ _ k.nonce l.below;
    sizes = rw k.size l.sizes;
    small = rw k.size l.small;
  }

  finish-Keeps :
      (a ch ch' : EncryptedChannel PeerId) (t : _) (r : Result SessionError Bytes)
      (e : ChannelError)
      → Keeps a (record ch { send_sequence = a.send_sequence })
      → finish lib json ch a.send_sequence t r ≡ (ch', err e)
      → (e ≡ frame_too_large) ⊎ (e ≡ backpressure)
      → Keeps a ch'
  unfolding finish from_session
  finish-Keeps a ch ch' t (err x) e k h refused = ground arith
  finish-Keeps a ch ch' t (ok c) e k h refused = ground arith

  abbrev pub Refused : ChannelError → Type 0
  Refused e = (e ≡ frame_too_large) ⊎ (e ≡ backpressure)

  send-Refused :
      (a a' : EncryptedChannel PeerId) (m : ChannelMessage) (e : ChannelError)
      → send lib json a m ≡ (a', err e)
      → Refused e
      → encode lib json (record a { send_sequence = a.send_sequence + 1 }) a.send_sequence m
        ≡ (a', err e)
  unfolding send
  send-Refused a a' m e h refused = ground arith

  encode-Refused :
      (ch ch' : EncryptedChannel PeerId) (sequence : ℕ) (m : ChannelMessage) (e : ChannelError)
      → encode lib json ch sequence m ≡ (ch', err e)
      → Refused e
      → (plaintext aad : Bytes) × (finish lib json
            (record ch { session = (encrypt lib ch.session plaintext aad).0 })
            sequence
            (type_of m)
            (encrypt lib ch.session plaintext aad).1
          ≡ (ch', err e))
  unfolding encode
  encode-Refused ch ch' sequence m e h refused = elim (Option-cases (json.message_json m)) [
    | inl x ↦ ground arith
    | inr (plaintext, x) ↦
        elim (Option-cases (json.header_json (header_for ch (type_of m) sequence 0))) [
          | inl y ↦ ground arith
          | inr (aad, y) ↦ (plaintext, aad, ground arith)
        ]
  ]

  -- A send that is refused for its size or for a full queue gives its sequence number back.
  send-Keeps :
      (a a' : EncryptedChannel PeerId) (m : ChannelMessage) (e : ChannelError)
      → send lib json a m ≡ (a', err e)
      → Refused e
      → Keeps a a'
  send-Keeps a a' m e h refused =
      let (plaintext, aad, finishing) =
        encode-Refused _ a' a.send_sequence m e (send-Refused a a' m e h refused) refused in
      let (id, key, nonce) = encrypt_keeps a.session plaintext aad in
      finish-Keeps a _ a' (type_of m) _ e
        (record { id = id; key = key; nonce = nonce; version = refl; size = refl; sequence = refl })
        finishing refused

  -- What a sender may do: send messages other than `close`, have sends refused for their size or for
  -- a full queue, and hand out queued frames. The lists are the messages and the frames of the sends
  -- that succeeded.
  pub data Sends (a' : EncryptedChannel PeerId)
      : EncryptedChannel PeerId → List ChannelMessage → List Bytes → Type 0 where
    done : Sends a' a' [] []
    sent :
        {a a₁ : EncryptedChannel PeerId} {ms : List ChannelMessage} {frames : List Bytes}
        (m : ChannelMessage) (frame : Bytes)
        → send lib json a m ≡ (a₁, ok frame)
        → m ≢ ChannelMessage.close
        → Sends a' a₁ ms frames
        → Sends a' a (m ∷ ms) (frame ∷ frames)
    refused :
        {a a₁ : EncryptedChannel PeerId} {ms : List ChannelMessage} {frames : List Bytes}
        (m : ChannelMessage) (e : ChannelError)
        → send lib json a m ≡ (a₁, err e)
        → Refused e
        → Sends a' a₁ ms frames
        → Sends a' a ms frames
    taken :
        {a : EncryptedChannel PeerId} {ms : List ChannelMessage} {frames : List Bytes}
        → Sends a' (take_pending lib json a).0 ms frames
        → Sends a' a ms frames

  -- What a receiver makes of frames, one after the other.
  unfoldable pub receive_all :
      EncryptedChannel PeerId
      → List Bytes
      → EncryptedChannel PeerId × List (Result ChannelError ChannelMessage)
  receive_all b [] = (b, [])
  receive_all b (frame ∷ frames) =
      let (b₁, r) = receive lib json b frame in let (b', rs) = receive_all b₁ frames in (b', r ∷ rs)

  take_pending-Keeps : (a : EncryptedChannel PeerId) → Keeps a (take_pending lib json a).0
  unfolding take_pending
  take_pending-Keeps a = ground arith

  module _ (laws : Laws lib) (codec : CodecLaws json) where
    -- Two linked channels, under the laws of the libraries: whatever the sender sends, short of
    -- closing, however many of its sends are refused for their size or for a full queue, and
    -- whenever frames are taken from its queue, the receiver makes of the frames, in order, the
    -- messages that were sent, and the two are linked again at the end.
    pub receive_all-Sends :
        (a' a b : EncryptedChannel PeerId) (ms : List ChannelMessage) (frames : List Bytes)
        → Linked lib json a b
        → Sends a' a ms frames
        → ((receive_all b frames).1 ≡ map ok ms) × Linked lib json a' (receive_all b frames).0
    unfolding receive_all
    receive_all-Sends a' a b ms frames linked done = (refl, linked)
    receive_all-Sends a' a b ms frames linked
          (sent {a₁} {ms = ms'} {frames = frames'} m frame h stays rest) =
        let e = receive-send lib json laws codec a a₁ b m frame linked h in
        let (same, linked') =
          receive_all-Sends a' a₁ (received lib json b m a.session.send_nonce) ms' frames'
            (send-Linked lib json laws codec a a₁ b m frame linked h stays) rest in
        rw e (ap (λ (rs : List _). ok m ∷ rs) same, linked')
    receive_all-Sends a' a b ms frames linked (refused {a₁} m e h r rest) =
        receive_all-Sends a' a₁ b ms frames (Linked-Keeps a a₁ b linked (send-Keeps a a₁ m e h r))
          rest
    receive_all-Sends a' a b ms frames linked (taken rest) =
        receive_all-Sends a' (take_pending lib json a).0 b ms frames
          (Linked-Keeps a _ b linked (take_pending-Keeps a)) rest
