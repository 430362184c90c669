-- ===== src/Audio/Rtp.antt =====
-- core/pkg/audio/rtp_session.go: the packets of a talk. The encoding of a packet (pion/rtp), the UDP
-- connection and the random numbers are parameters.
use skeyevss_backend_service.Prelude.{
  ◌⊎◌, ◌≢◌, ℕ, zero, suc, ◌+◌, ◌%◌, ◌^◌, ◌<◌, ◌≡◌, refl, sym, ap, ◌∙◌, Bool, true, false, not,
  Option, none, some, List, [], ◌∷◌, ◌++◌, if◌then◌else◌, nat_beq, length, arith, All, ℤ, pos,
  negsuc, inl, inr,
}
use mathlib.Core.List.{append-nil, append_assoc}
use native.Mathlib.Nat.{mod-eq_of_lt}
use skeyevss_backend_service.Text.{Text, bytes, text_beq}
use skeyevss_backend_service.Audio.{g711a_encode_pcm, g711u_encode_pcm}

-- TalkSessionItem: what a session is made from.
pub record TalkSessionItem : Type 0 where
  pub ssrc : ℕ
  pub audio_codec : Text
  pub audio_payload_type : ℤ
  pub audio_sample_rate : ℤ

pub record Packet : Type 0 where
  pub payload_type : ℕ
  pub sequence_number : ℕ
  pub timestamp : ℕ
  pub ssrc : ℕ
  pub payload : List ℕ

-- RTPSession, and the packets written so far.
pub record RtpSession : Type 0 where
  pub connected : Bool
  pub sequence_num : ℕ
  pub timestamp : ℕ
  pub ssrc : ℕ
  pub sample_rate : ℕ
  pub payload_type : ℕ
  pub audio_codec : Text
  pub send_count : ℕ
  pub written : List Packet

abbrev pub or_default : ℤ → ℕ → ℕ
or_default (pos zero) d = d
or_default (pos (suc n)) d = suc n
or_default (negsuc n) d = d

abbrev pub codec_or_default : Text → Text
codec_or_default [] = bytes "PCMA"
codec_or_default (c ∷ s) = c ∷ s

-- NewRTPSession, when the addresses resolve and the connection is made: `random_ssrc` and
-- `random_start` are the results of package rand.
pub new_rtp_session : ℕ → ℕ → TalkSessionItem → RtpSession
new_rtp_session random_ssrc random_start item = record {
  connected = true;
  sequence_num = random_start % 2 ^ 16;
  timestamp = 0;
  ssrc = if nat_beq item.ssrc 0 then random_ssrc else item.ssrc;
  sample_rate = or_default item.audio_sample_rate 8000 % 2 ^ 32;
  payload_type = or_default item.audio_payload_type 8 % 2 ^ 8;
  audio_codec = codec_or_default item.audio_codec;
  send_count = 0;
  written = [];
}

-- The outcome of a send: an error, of which the session is told nothing, or none.
pub data Sent : Type 0 where
  not_connected no_audio not_encoded not_marshalled not_written sent : Sent

-- What MarshalTo and Write answer.
pub record Network : Type 0 where
  pub marshals : Packet → Bool
  pub writes : Packet → Bool

abbrev pub packet_of : RtpSession → List ℕ → Packet
packet_of s audio_data = record {
  payload_type = s.payload_type;
  sequence_number = s.sequence_num;
  timestamp = s.timestamp;
  ssrc = s.ssrc;
  payload = audio_data;
}

abbrev pub after_packet : RtpSession → List ℕ → ℕ → RtpSession
after_packet s audio_data samples = record s {
  written = s.written ++ packet_of s audio_data ∷ [];
  send_count = s.send_count + 1;
  sequence_num = (s.sequence_num + 1) % 2 ^ 16;
  timestamp = (s.timestamp + samples % 2 ^ 32) % 2 ^ 32;
}

-- SendAudioPacket
pub send_audio_packet : Network → List ℕ → ℕ → RtpSession → Sent × RtpSession
send_audio_packet net audio_data samples s =
    if not s.connected
    then (not_connected, s)
    else if nat_beq (length audio_data) 0
    then (no_audio, s)
    else if not (net.marshals (packet_of s audio_data))
    then (not_marshalled, s)
    else if not (net.writes (packet_of s audio_data))
    then (not_written, s)
    else (sent, after_packet s audio_data samples)

-- The choice of the codec; `upper` is strings.ToUpper of the name.
pub encode_for : Text → List ℕ → Option (List ℕ)
encode_for upper pcm_data =
    if text_beq upper (bytes "MPEG4-GENERIC")
    then g711a_encode_pcm pcm_data
    else if text_beq upper (bytes "PCMU")
    then g711u_encode_pcm pcm_data
    else g711a_encode_pcm pcm_data

abbrev pub send_encoded : Network → Option (List ℕ) → RtpSession → Sent × RtpSession
send_encoded net none s = (not_encoded, s)
send_encoded net (some encoded) s = send_audio_packet net encoded (length encoded) s

-- SendAudioStream
pub send_audio_stream : Network → (Text → Text) → List ℕ → RtpSession → Sent × RtpSession
unfolding encode_for send_audio_packet
send_audio_stream net to_upper pcm_data s =
    if nat_beq (length pcm_data) 0
    then (no_audio, s)
    else send_encoded net (encode_for (to_upper s.audio_codec) pcm_data) s

-- Chunks of encoded audio, one packet each, as SendAudioStream sends them.
pub send_all : Network → List (List ℕ) → RtpSession → RtpSession
unfolding send_audio_packet
send_all net [] s = s
send_all net (chunk ∷ rest) s = send_all net rest (send_audio_packet net chunk (length chunk) s).1

-- The packets of a stream: the `n`-th after the first has the sequence number `first + n`, and the
-- time stamp counts the bytes before it, each modulo its width.
pub numbered : ℕ → ℕ → ℕ → ℕ → List (List ℕ) → List Packet
numbered payload_type ssrc first time [] = []
numbered payload_type ssrc first time (chunk ∷ rest) =
    record {
      payload_type = payload_type;
      sequence_number = first % 2 ^ 16;
      timestamp = time % 2 ^ 32;
      ssrc = ssrc;
      payload = chunk;
    }
    ∷ numbered payload_type ssrc (first + 1) (time + length chunk) rest

abbrev pub IsChunk : List ℕ → Type 0
IsChunk chunk = 0 < length chunk

sends :
    (net : Network) (chunk : List ℕ) (samples : ℕ) (s : RtpSession)
    → s.connected ≡ true
    → IsChunk chunk
    → ((p : Packet) → (net.marshals p ≡ true) × (net.writes p ≡ true))
    → (send_audio_packet net chunk samples s).1 ≡ after_packet s chunk samples
unfolding send_audio_packet
sends net chunk samples s c h ok =
    let some_audio : nat_beq (length chunk) 0 ≡ false = ground arith in
    let o = ok (packet_of s chunk) in rw (send_audio_packet, c, some_audio, o.0, o.1) refl

send_all_from :
    (net : Network) (chunks : List (List ℕ)) (s : RtpSession) (first time : ℕ)
    → s.connected ≡ true
    → ((p : Packet) → (net.marshals p ≡ true) × (net.writes p ≡ true))
    → All IsChunk chunks
    → s.sequence_num ≡ first % 2 ^ 16
    → s.timestamp ≡ time % 2 ^ 32
    → (send_all net chunks s).written
      ≡ s.written ++ numbered s.payload_type s.ssrc first time chunks
unfolding send_all send_audio_packet numbered
send_all_from net [] s first time c ok h e₀ e₁ = sym (append-nil s.written)
send_all_from net (chunk ∷ rest) s first time c ok h e₀ e₁ =
    let n = length chunk in
    let next = after_packet s chunk n in
    let tail = numbered s.payload_type s.ssrc (first + 1) (time + n) rest in
    ap (λ t. (send_all net rest t).written) (sends net chunk n s c h.0 ok)
    ∙ send_all_from net rest next (first + 1) (time + n) c ok h.1 (omega arith) (omega arith)
    ∙ append_assoc s.written (packet_of s chunk ∷ []) tail
    ∙ (λ i.
        s.written
        ++ record {
          payload_type = s.payload_type;
          sequence_number = e₀ i;
          timestamp = e₁ i;
          ssrc = s.ssrc;
          payload = chunk;
        }
          ∷ tail)

-- A connected session over a network without errors sends the chunks of a stream, none empty, in
-- packets that are numbered from its sequence number on, and stamped from its time stamp on, with
-- the wrap-around of 16 and of 32 bits.
pub send_all_lem :
    (net : Network) (chunks : List (List ℕ)) (s : RtpSession)
    → s.connected ≡ true
    → s.sequence_num < 2 ^ 16
    → s.timestamp < 2 ^ 32
    → ((p : Packet) → (net.marshals p ≡ true) × (net.writes p ≡ true))
    → All IsChunk chunks
    → (send_all net chunks s).written
      ≡ s.written ++ numbered s.payload_type s.ssrc s.sequence_num s.timestamp chunks
send_all_lem net chunks s c b₀ b₁ ok h =
    send_all_from net chunks s s.sequence_num s.timestamp c ok h (sym (mod-eq_of_lt b₀))
      (sym (mod-eq_of_lt b₁))

-- A send either leaves the session as it was, or it says so and writes one packet.
abbrev pub Comes : RtpSession → List ℕ → Sent × RtpSession → Type 0
Comes s audio_data r =
    ((r.0 ≢ sent) × (r.1 ≡ s))
    ⊎ ((r.0 ≡ sent)
        × (r.1.written ≡ s.written ++ packet_of s audio_data ∷ [])
        × (r.1.sequence_num < 2 ^ 16)
        × (r.1.timestamp < 2 ^ 32))

Comes-if :
    (s : RtpSession) (audio_data : List ℕ) (b : Bool) {x y : Sent × RtpSession}
    → Comes s audio_data x
    → Comes s audio_data y
    → Comes s audio_data (if b then x else y)
Comes-if s audio_data true h k = h
Comes-if s audio_data false h k = k

-- A send that fails says why and leaves the session as it was; one that succeeds writes one packet,
-- and its sequence number and time stamp fit their widths afterwards.
pub send_audio_packet_cases :
    (net : Network) (audio_data : List ℕ) (samples : ℕ) (s : RtpSession)
    → Comes s audio_data (send_audio_packet net audio_data samples s)
unfolding send_audio_packet
send_audio_packet_cases net audio_data samples s =
    Comes-if s audio_data (not s.connected) (inl (λ e. cc e, refl)) (
      Comes-if s audio_data (nat_beq (length audio_data) 0) (inl (λ e. cc e, refl)) (
        Comes-if s audio_data (not (net.marshals (packet_of s audio_data))) (inl (λ e. cc e, refl))
          (Comes-if s audio_data (not (net.writes (packet_of s audio_data))) (inl (λ e. cc e, refl))
            (inr (refl, refl, omega arith, omega arith)))))
