-- ===== src/StreamConn/Transcript.antt =====
-- What one side puts on a stream, and the events of the other side.
-- Writes and frames that Read drops, in any order, on the stream of a sender: the bytes of the writes
-- and the messages that all of them are.
use sing_ewp.Prelude.Int.{ℤ}
use sing_ewp.StreamConn.{write_bytes, is_dropped}
use sing_ewp.Frame.{tcp_data}
use sing_ewp.StreamConn.Writes.{recv_all-append, write_bytes-Received}
use sing_ewp.StreamConn.Reads.{tcp_bytes, bytes_of, is_stream_type}
use sing_ewp.Crypto.Random.{FillsBuffer}
use sing_ewp.SecureStream.Datagrams.{deliver_ok}
use sing_ewp.Errors.{ok}
use sing_ewp.SecureStream.{
  event_of, bare_event, SecureStream, Event, send_frame, recv_event, SendEnv,
}
use sing_ewp.Crypto.{Primitives, IsLawful}
use sing_ewp.Prelude.{
  ◌∙◌, ap, ◌++◌, [], ◌∷◌, arith, none, All, List, ◌≡◌, ℕ, refl, true, append_assoc, All-append, sym,
}
use sing_ewp.SecureStream.Tcp.{recv_all, payloads, Received}
use sing_ewp.SecureStream.Delivery.{frame_arrives, count_received, frame_of, Linked}

pub data Transcript (p : Primitives)
    : SecureStream → List ℕ → List (List ℕ) → SecureStream → Type 0 where
  nothing : {s : SecureStream} → Transcript p s [] [] s
  wrote :
      {s s' s'' : SecureStream} {bytes : List ℕ} {msgs more : List (List ℕ)} (env : ℕ → ℕ → SendEnv)
      (b : List ℕ) (n : ℕ)
      → ((j k : ℕ) → FillsBuffer (env j k).fill)
      → write_bytes p env b s ≡ (s', msgs, n, none)
      → Transcript p s' bytes more s''
      → Transcript p s (b ++ bytes) (msgs ++ more) s''
  dropped :
      {s s' s'' : SecureStream} {bytes : List ℕ} {msgs more : List (List ℕ)} (env : SendEnv) (t : ℕ)
      (payload : List ℕ) (pad : ℤ)
      → FillsBuffer env.fill
      → is_dropped t ≡ true
      → send_frame p env t [] payload pad s ≡ (s', msgs, none)
      → Transcript p s' bytes more s''
      → Transcript p s bytes (msgs ++ more) s''

-- The receiver gets the messages as events that Read takes or drops, with these bytes, and the streams
-- are linked after them.
pub record Arrives (p : Primitives) (bytes : List ℕ) (msgs : List (List ℕ)) (s' r : SecureStream)
    : Type 0 where
  pub events : List Event
  pub r' : SecureStream
  pub all : recv_all p msgs r ≡ ok (events, r')
  pub kinds : All (λ (ev : Event). is_stream_type ev.type ≡ true) events
  pub whole : tcp_bytes events ≡ bytes
  pub link : Linked s' r'

tcp_bytes-append : (xs ys : List Event) → tcp_bytes (xs ++ ys) ≡ tcp_bytes xs ++ tcp_bytes ys
unfolding tcp_bytes
tcp_bytes-append [] ys = refl
tcp_bytes-append (x ∷ xs) ys =
    ap (λ (b : List ℕ). bytes_of x ++ b) (tcp_bytes-append xs ys)
    ∙ sym (append_assoc (bytes_of x) (tcp_bytes xs) (tcp_bytes ys))

-- Events of TCP frames only.
tcp_bytes-payloads :
    (evs : List Event) → All (λ (ev : Event). ev.type ≡ tcp_data) evs → tcp_bytes evs ≡ payloads evs
unfolding tcp_bytes payloads
tcp_bytes-payloads [] h = refl
tcp_bytes-payloads (ev ∷ evs) h =
    let first : bytes_of ev ≡ ev.payload = ground (arith, h.0) in
    rw (first, tcp_bytes-payloads evs h.1) refl

tcp-kinds :
    (evs : List Event)
    → All (λ (ev : Event). ev.type ≡ tcp_data) evs
    → All (λ (ev : Event). is_stream_type ev.type ≡ true) evs
tcp-kinds [] h = tt
tcp-kinds (ev ∷ evs) h = (ground (arith, h.0), tcp-kinds evs h.1)

dropped_event :
    (s : SecureStream) (t : ℕ) (payload : List ℕ)
    → is_dropped t ≡ true
    → event_of (frame_of s t [] payload) ≡ ok (bare_event (frame_of s t [] payload))
unfolding event_of
dropped_event s t payload h = ground (arith, h)

no_bytes :
    (s : SecureStream) (t : ℕ) (payload : List ℕ)
    → is_dropped t ≡ true
    → tcp_bytes (bare_event (frame_of s t [] payload) ∷ []) ≡ []
unfolding tcp_bytes
no_bytes s t payload h = ground (arith, h)

module _ (p : Primitives) where
  recv_one :
      (m : List ℕ) (r r' : SecureStream) (ev : Event)
      → recv_event p (ok m) r ≡ (r', ok ev)
      → recv_all p (m ∷ []) r ≡ ok (ev ∷ [], r')
  unfolding recv_all
  recv_one m r r' ev h = rw h refl

module _ (p : Primitives) (lawful : IsLawful p) where
  Arrives-append :
      (front back : List ℕ) (msgs more : List (List ℕ)) (s1 s' r : SecureStream)
      → Arrives p front msgs s1 r
      → ((r1 : SecureStream) → Linked s1 r1 → Arrives p back more s' r1)
      → Arrives p (front ++ back) (msgs ++ more) s' r
  Arrives-append front back msgs more s1 s' r w next =
      let v = next w.r' w.link in
      record {
        events = w.events ++ v.events;
        r' = v.r';
        all = recv_all-append p lawful msgs more r w.r' v.r' w.events v.events w.all v.all;
        kinds =
            All-append (λ (ev : Event). is_stream_type ev.type ≡ true) w.events v.events w.kinds
              v.kinds;
        whole = tcp_bytes-append w.events v.events ∙ rw (w.whole, v.whole) refl;
        link = v.link;
      }

  pub Received-Arrives :
      (bytes : List ℕ) (msgs : List (List ℕ)) (s' r : SecureStream)
      → Received p bytes msgs s' r
      → Arrives p bytes msgs s' r
  Received-Arrives bytes msgs s' r w = record {
    events = w.events;
    r' = w.r';
    all = w.all;
    kinds = tcp-kinds w.events w.tcp;
    whole = tcp_bytes-payloads w.events w.tcp ∙ w.whole;
    link = w.link;
  }

  dropped-Arrives :
      (env : SendEnv) (t : ℕ) (payload : List ℕ) (pad : ℤ) (s s' r : SecureStream)
      (msgs : List (List ℕ))
      → FillsBuffer env.fill
      → is_dropped t ≡ true
      → Linked s r
      → send_frame p env t [] payload pad s ≡ (s', msgs, none)
      → Arrives p [] msgs s' r
  dropped-Arrives env t payload pad s s' r msgs fills ht link h =
      let (wire, one, got, link') =
        frame_arrives p lawful env t [] payload pad s s' r msgs fills link h in
      let r' = count_received s'.send wire r in
      let fr = frame_of s t [] payload in
      let event = got ∙ deliver_ok p r' fr (bare_event fr) (dropped_event s t payload ht) in
      record {
        events = bare_event fr ∷ [];
        r' = r';
        all = rw one (recv_one p wire r r' (bare_event fr) event);
        kinds = (ground (arith, ht), tt);
        whole = no_bytes s t payload ht;
        link = link';
      }

  pub Transcript-Arrives :
      {s s' : SecureStream} {bytes : List ℕ} {msgs : List (List ℕ)}
      → Transcript p s bytes msgs s'
      → (r : SecureStream) → Linked s r
      → Arrives p bytes msgs s' r
  unfolding recv_all tcp_bytes
  Transcript-Arrives nothing r link = record {
    events = [];
    r' = r;
    all = refl;
    kinds = tt;
    whole = refl;
    link = link;
  }
  Transcript-Arrives (wrote {s} {s'} {s''} {bytes} {msgs} {more} env b n fills h later) r link =
      let w = write_bytes-Received p lawful env b s s' r msgs n fills link h in
      Arrives-append b bytes msgs more s' s'' r (Received-Arrives b msgs s' r w.0)
        (Transcript-Arrives later)
  Transcript-Arrives
        (dropped {s} {s'} {s''} {bytes} {msgs} {more} env t payload pad fills ht h later) r link =
      let w = dropped-Arrives env t payload pad s s' r msgs fills ht link h in
      Arrives-append [] bytes msgs more s' s'' r w (Transcript-Arrives later)
