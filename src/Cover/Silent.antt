-- ===== src/Cover/Silent.antt =====
-- What cover traffic changes: nothing that an application sees.
use sing_ewp.SecureStream.Delivery.{send_frame_inv, Linked}
use sing_ewp.StreamConn.{read, StreamConn}
use sing_ewp.PacketConn.{read_from, PacketConn}
use sing_ewp.StreamConn.Open.{read_past}
use sing_ewp.PacketConn.Reads.{read_behind}
use sing_ewp.PacketConn.Skips.{Quiet-Ignored}
use sing_ewp.SecureStream.Delivery.{send_frame_inv}
use sing_ewp.StreamConn.Transcript.{Transcript, dropped, nothing, Transcript-Arrives}
use sing_ewp.Prelude.Int.{negsuc}
use sing_ewp.PacketConn.Quiet.{Quiet, quiet_control, quiet_done}
use sing_ewp.Crypto.{Primitives, IsLawful}
use sing_ewp.Cover.{cover_turn, cover_loop, is_idle, CoverConfig}
use sing_ewp.SecureStream.Total.{send_frame_total, Works}
use sing_ewp.Crypto.Random.{FillsBuffer}
use sing_ewp.Frame.{valid, padding_only}
use sing_ewp.SecureStream.{send_cover_pad, SecureStream, SendEnv}
use sing_ewp.Prelude.{
  true, Bool-cases, [], length, ◌∙◌, ◌++◌, refl, ◌∷◌, inr, All, false, suc, arith, inl, ◌≡◌, ℕ, ap,
  if◌then◌else◌, List, none, subst, sym,
}

-- How many turns find the stream idle, when no application data is sent between them.
unfoldable pub idle_turns : List SendEnv → CoverConfig → ℕ → ℕ
idle_turns [] cfg last = 0
idle_turns (env ∷ envs) cfg last =
    let rest = idle_turns envs cfg last in if is_idle env cfg last then suc rest else rest

-- Frames without application data, with the stream before and after them.
record IsUnheard (p : Primitives) (gid : List ℕ) (s : SecureStream) (msgs : List (List ℕ))
    (s' : SecureStream) : Type 0 where
  pub quiet : Quiet p gid s msgs s'
  pub transcript : Transcript p s [] msgs s'
  pub same_clock : s'.last_send ≡ s.last_send
  pub still_open : s'.closed ≡ false

module _ (p : Primitives) (gid : List ℕ) where
  -- A cover frame, and what is silent after it.
  one_frame :
      (env : SendEnv) (s s1 s' : SecureStream) (msgs more : List (List ℕ))
      → FillsBuffer env.fill
      → send_cover_pad p env (negsuc 0) s ≡ (s1, msgs, none)
      → s1.last_send ≡ s.last_send
      → IsUnheard p gid s1 more s'
      → IsUnheard p gid s (msgs ++ more) s'
  one_frame env s s1 s' msgs more fills h clock k = record {
    quiet = quiet_control env padding_only [] (negsuc 0) fills refl h k.quiet;
    transcript = dropped env padding_only [] (negsuc 0) fills refl h k.transcript;
    same_clock = k.same_clock ∙ clock;
    still_open = k.still_open;
  }

  cover_frame :
      (env : SendEnv) (s : SecureStream)
      → Works env
      → s.closed ≡ false
      → (s1 : SecureStream) × (wire : List ℕ) × (send_cover_pad p env (negsuc 0) s
          ≡ (s1, wire ∷ [], none))
        × (s1.last_send ≡ s.last_send)
        × (s1.closed ≡ false)
  cover_frame env s w o =
      let r = send_cover_pad p env (negsuc 0) s in
      let total =
        send_frame_total p env padding_only [] [] s w o (unfold valid in refl) (omega arith)
          (omega arith) in
      let sent : r ≡ (r.0, r.1, none) = ground (arith, total) in
      let i = send_frame_inv p env padding_only [] [] (negsuc 0) s r.0 r.1 sent in
      (r.0, i.wire, rw (← i.messages) sent, ap (λ (x : SecureStream). x.last_send) i.state, total.1)

  turn_idle :
      (env : SendEnv) (envs : List SendEnv) (cfg : CoverConfig) (s s1 s' : SecureStream)
      (msgs more : List (List ℕ))
      → s.closed ≡ false
      → is_idle env cfg s.last_send ≡ true
      → send_cover_pad p env (negsuc 0) s ≡ (s1, msgs, none)
      → cover_loop p envs cfg s1 ≡ (s', more)
      → cover_loop p (env ∷ envs) cfg s ≡ (s', msgs ++ more)
  unfolding cover_loop cover_turn
  turn_idle env envs cfg s s1 s' msgs more o i h k = ground (arith, o, i, h, k)

  turn_busy :
      (env : SendEnv) (envs : List SendEnv) (cfg : CoverConfig) (s : SecureStream)
      → s.closed ≡ false
      → is_idle env cfg s.last_send ≡ false
      → cover_loop p (env ∷ envs) cfg s ≡ cover_loop p envs cfg s
  unfolding cover_loop cover_turn
  turn_busy env envs cfg s o i = ground (arith, o, i)

  cover_loop-IsUnheard :
      (envs : List SendEnv) (cfg : CoverConfig) (s : SecureStream)
      → All Works envs
      → All (λ (env : SendEnv). FillsBuffer env.fill) envs
      → s.closed ≡ false
      → let (s', msgs) = cover_loop p envs cfg s in
        IsUnheard p gid s msgs s' × (length msgs ≡ idle_turns envs cfg s.last_send)
  unfolding cover_loop idle_turns
  cover_loop-IsUnheard [] cfg s works fills o =
      (record { quiet = quiet_done; transcript = nothing; same_clock = refl; still_open = o }, refl)
  cover_loop-IsUnheard (env ∷ envs) cfg s works fills o =
      elim (Bool-cases (is_idle env cfg s.last_send)) [
        | inl e ↦
            let (s1, wire, sent, clock, o1) = cover_frame env s works.0 o in
            let (rest, count) = cover_loop-IsUnheard envs cfg s1 works.1 fills.1 o1 in
            (subst
              (λ r.
                IsUnheard p gid s r.1 r.0 × (length r.1 ≡ idle_turns (env ∷ envs) cfg s.last_send))
              (sym (
                turn_idle env envs cfg s s1 (cover_loop p envs cfg s1).0 (wire ∷ [])
                  (cover_loop p envs cfg s1).1 o e sent refl))
              (
                one_frame env s s1 (cover_loop p envs cfg s1).0 (wire ∷ [])
                    (cover_loop p envs cfg s1).1 fills.0 sent clock rest,
                ground (arith, e, count, clock),
              ))
        | inr e ↦
            subst
              (λ r.
                IsUnheard p gid s r.1 r.0 × (length r.1 ≡ idle_turns (env ∷ envs) cfg s.last_send))
              (sym (turn_busy env envs cfg s o e))
              (let k = cover_loop-IsUnheard envs cfg s works.1 fills.1 o in
                (k.0, ground (arith, e, k.1)))
      ]

-- Messages that both kinds of reader on the other side read past.
pub record IsSilent (p : Primitives) (s : SecureStream) (msgs : List (List ℕ)) (s' : SecureStream)
    : Type 0 where
  pub read_from_skips :
      (d : PacketConn)
      → Linked s d.stream
      → Linked d.stream s
      → d.pending_first ≡ none
      → (r : SecureStream) × ((k : ℕ) (rest : List (List ℕ))
          → read_from p k (msgs ++ rest) d ≡ read_from p k rest (record d { stream = r }))
        × Linked s' r
        × Linked r s'
  pub read_skips :
      (c : StreamConn)
      → Linked s c.stream
      → c.read_buf ≡ []
      → (r : SecureStream) × ((k : ℕ) (rest : List (List ℕ))
          → read p k (msgs ++ rest) c ≡ read p k rest (record c { stream = r }))
        × Linked s' r
  pub same_clock : s'.last_send ≡ s.last_send
  pub still_open : s'.closed ≡ false

module _ (p : Primitives) (lawful : IsLawful p) where
  -- The packet connection's id does not matter to cover frames.
  IsUnheard-IsSilent :
      (s s' : SecureStream) (msgs : List (List ℕ))
      → ((gid : List ℕ) → IsUnheard p gid s msgs s')
      → IsSilent p s msgs s'
  IsUnheard-IsSilent s s' msgs h = record {
    read_from_skips = λ d link back none_first.
        let g = Quiet-Ignored p lawful d.global_id (h d.global_id).quiet d refl link back in
        (g.r, λ k rest. read_behind p d s' msgs g k rest none_first, g.link, g.back);
    read_skips = λ c link nil.
        let w = Transcript-Arrives p lawful (h []).transcript c.stream link in
        (w.r', λ k rest. read_past p msgs rest k c w.events w.r' w.all w.kinds w.whole nil, w.link);
    same_clock = (h []).same_clock;
    still_open = (h []).still_open;
  }

  -- On an open stream with a working crypto/rand and transport, cover traffic stays unseen. After any
  -- number of turns, whatever the clock, the padding and the configuration, the stream is open and the
  -- time of the last application send is as it was. A ReadFrom of a linked other side without a pending
  -- datagram, and a Read of a linked other side with an empty buffer, give what they give without the
  -- messages of these turns. There is one message for each turn that found the stream idle.
  pub cover_loop-IsSilent :
      (envs : List SendEnv) (cfg : CoverConfig) (s : SecureStream)
      → All Works envs
      → All (λ (env : SendEnv). FillsBuffer env.fill) envs
      → s.closed ≡ false
      → let (s', msgs) = cover_loop p envs cfg s in
        IsSilent p s msgs s' × (length msgs ≡ idle_turns envs cfg s.last_send)
  cover_loop-IsSilent envs cfg s works fills o = (
    IsUnheard-IsSilent s _ _ (λ gid. (cover_loop-IsUnheard p gid envs cfg s works fills o).0),
    (cover_loop-IsUnheard p [] envs cfg s works fills o).1,
  )
