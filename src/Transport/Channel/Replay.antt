-- ===== src/Transport/Channel/Replay.antt =====
-- The counter of received messages.
use sip_protocol.Prelude.{
  ℕ, ◌+◌, ◌<◌, ◌≤◌, ◌≡◌, refl, ap, ◌∙◌, sym, List, true, not, none, some, Result, ok, err, guard,
  get_default, value_error, runtime_error, unbind, ok-injective, guard-eq-ok, ltb, ltb→lt, lt→ltb,
  Bool-cases, inl, inr, arith,
}
use sip_protocol.Crypto.Primitives.{Primitives}
use sip_protocol.Protocol.Message.{Message, decrypt_message}
use sip_protocol.Transport.Message.{
  Envelope, encrypted_payload, encrypted_message, is_expired, is_max_hops_reached,
}
use sip_protocol.Transport.Channel.{Channel, ChannelState, is_established}
use sip_protocol.Transport.Channel.Steps.{Reach}
use sip_protocol.Transport.Channel.Later.{is_past, Reach-IsLater}
use sip_protocol.Transport.Channel.Receive.{
  message_of, check_replay_tag, open_payload, receive_checked, advance, receive_counted,
  receive_typed, receive,
}

-- The envelope is an encrypted message, as `create_encrypted_message` makes it.
abbrev pub IsEncrypted : Envelope → Message → Type 0
IsEncrypted envelope message =
    (envelope.message_type ≡ encrypted_message) × (envelope.payload ≡ encrypted_payload message)

-- The channel after a message with this counter was received.
abbrev pub took : Channel → ℕ → Channel
took channel counter = record channel {
  recv_counter = counter;
  messages_received = channel.messages_received + 1;
}

-- What receiving an encrypted message leaves when it returns a text.
record Received (p : Primitives) (now : ℕ) (channel next : Channel) (envelope : Envelope)
    (message : Message) (plaintext : List ℕ) : Type 0 where
  is_open : is_established channel.state ≡ true
  alive : not (is_expired now channel.config.message_ttl_ms envelope) ≡ true
  hops : not (is_max_hops_reached envelope) ≡ true
  above : channel.recv_counter < get_default message.message_counter 0
  opened : open_payload p channel.session_keys message ≡ ok plaintext
  next_eq : next ≡ took channel (get_default message.message_counter 0)

module _ (p : Primitives) where
  advanced :
      (channel next : Channel) (counter : ℕ) (r : Result (List ℕ)) (plaintext : List ℕ)
      → advance p channel counter r ≡ (next, ok plaintext)
      → (r ≡ ok plaintext) × (next ≡ took channel counter)
  unfolding advance
  advanced channel next counter (err e) plaintext h =
      absurd (let e : err e ≡ ok plaintext = ap (λ t. t.1) h in cc)
  advanced channel next counter (ok got) plaintext h = (ap (λ t. t.1) h, sym (ap (λ t. t.0) h))

  counted :
      (channel next : Channel) (message : Message) (r : Result ℕ) (plaintext : List ℕ)
      → receive_counted p channel message r ≡ (next, ok plaintext)
      → (counter : ℕ) × (r ≡ ok counter)
        × (open_payload p channel.session_keys message ≡ ok plaintext)
        × (next ≡ took channel counter)
  unfolding receive_counted
  counted channel next message (err e) plaintext h =
      absurd (let e : err e ≡ ok plaintext = ap (λ t. t.1) h in cc)
  counted channel next message (ok counter) plaintext h =
      let (opened, next_eq) =
        advanced channel next counter (open_payload p channel.session_keys message) plaintext h in
      (counter, refl, opened, next_eq)

  received :
      (now : ℕ) (channel next : Channel) (envelope : Envelope) (message : Message)
      (plaintext : List ℕ)
      → IsEncrypted envelope message
      → receive p now channel envelope ≡ (next, ok plaintext)
      → Received p now channel next envelope message plaintext
  unfolding receive receive_typed receive_checked message_of is_expired is_max_hops_reached
  received now channel next envelope message plaintext (ht, hp) h =
      elim (Bool-cases (is_established channel.state)) [
        | inr e ↦
            absurd (let k : err runtime_error ≡ ok plaintext = ap (λ t. t.1) (rw e at h) in cc)
        | inl e ↦
            let (counter, r, opened, next_eq) =
              counted channel next message (receive_checked p now channel envelope message)
                plaintext (rw (e, ht, hp) at h) in
            unbind (guard (not (is_expired now channel.config.message_ttl_ms envelope)) value_error)
              r
              λ u1 g1 h1.
                unbind (guard (not (is_max_hops_reached envelope)) value_error) h1 λ u2 g2 h2.
                  unbind
                    (check_replay_tag p channel.session_keys message.replay_tag
                      (get_default message.sender_id envelope.sender_id)
                      (get_default message.message_counter 0) message.suite)
                    h2
                    λ u3 g3 h3.
                      unbind
                        (guard (ltb channel.recv_counter (get_default message.message_counter 0))
                          value_error)
                        h3
                        λ u4 g4 h4. record {
                          is_open = e;
                          alive = guard-eq-ok _ value_error g1;
                          hops = guard-eq-ok _ value_error g2;
                          above =
                              ltb→lt channel.recv_counter (get_default message.message_counter 0)
                                (guard-eq-ok _ value_error g4);
                          opened = opened;
                          next_eq = next_eq ∙ ap (λ t. took channel t) (sym (ok-injective h4));
                        }
      ]

  -- An encrypted message that is received has a counter above the channel's, and the channel takes
  -- that counter over; the channel counts one message more; nothing else of it changes.
  pub receive_counter :
      (now : ℕ) (channel next : Channel) (envelope : Envelope) (message : Message)
      (plaintext : List ℕ)
      → IsEncrypted envelope message
      → receive p now channel envelope ≡ (next, ok plaintext)
      → (channel.recv_counter < next.recv_counter)
        × (next ≡ took channel (get_default message.message_counter 0))
  receive_counter now channel next envelope message plaintext hp h =
      let r = received now channel next envelope message plaintext hp h in
      (omega (arith, r.above, ap (λ t. t.recv_counter) r.next_eq), r.next_eq)

  established_past : (state : ChannelState) → is_established state ≡ true → is_past state ≡ true
  unfolding is_established
  established_past state h = ground arith

  -- After a channel received an encrypted message, and whatever operations it went through since
  -- then, changes of keys included, no encrypted message with that counter or a smaller one is
  -- received, at any time and in any envelope: in particular not the same message again.
  pub receive_replay :
      (now later : ℕ) (channel next reached after : Channel) (envelope other : Envelope)
      (message copy : Message) (plaintext again : List ℕ)
      → IsEncrypted envelope message
      → IsEncrypted other copy
      → get_default copy.message_counter 0 ≤ get_default message.message_counter 0
      → receive p now channel envelope ≡ (next, ok plaintext)
      → Reach p next reached
      → ¬ (receive p later reached other ≡ (after, ok again))
  receive_replay now later channel next reached after envelope other message copy plaintext again hp
        ho le h run h' =
      let first = received now channel next envelope message plaintext hp h in
      let past : is_past next.state ≡ true =
        ap (λ c. is_past c.state) first.next_eq ∙ established_past channel.state first.is_open in
      let grown = (Reach-IsLater p past run).received in
      let second = received later reached after other copy again ho h' in
      absurd (omega (arith, le, grown, second.above, ap (λ t. t.recv_counter) first.next_eq))

  -- The counter itself is not authenticated once the replay tag is gone: the message that was
  -- received is received again, in the same envelope and at the same time, when its tag is taken
  -- off and its counter raised.
  pub receive_stripped :
      (now counter : ℕ) (channel next : Channel) (envelope : Envelope) (message : Message)
      (plaintext : List ℕ)
      → IsEncrypted envelope message
      → receive p now channel envelope ≡ (next, ok plaintext)
      → get_default message.message_counter 0 < counter
      → (receive p now next (record envelope {
        payload =
            encrypted_payload
              (record message { replay_tag = none; message_counter = some counter });
      })).1
        ≡ ok plaintext
  unfolding receive receive_typed receive_counted receive_checked advance check_replay_tag
      is_expired is_max_hops_reached open_payload decrypt_message message_of
  receive_stripped now counter channel next envelope message plaintext (ht, hp) h more =
      let r = received now channel next envelope message plaintext (ht, hp) h in
      rw
        (
          r.next_eq,
          r.is_open,
          ht,
          r.alive,
          r.hops,
          lt→ltb (get_default message.message_counter 0) counter more,
          r.opened,
        )
        refl
