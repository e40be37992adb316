-- ===== src/Transport/Channel/Exchange.antt =====
-- What one channel sends, the other receives.
use mathlib.Core.Path.{subst}
use sip_protocol.Prelude.{
  map, ℕ, ◌+◌, ◌≤◌, ◌≡◌, refl, ap, ◌∙◌, sym, List, [], ◌∷◌, true, false, arith, Option, none, some,
  Result, ok, ok-injective, unbind, require, get_default, ltb, lt→ltb, assertion_error,
}
use sip_protocol.Python.Bytes.{IsBytes}
use sip_protocol.Python.Utf8.{IsText}
use sip_protocol.Python.Utf8
use sip_protocol.Crypto.Suite.{Suite, suite_text, validate_suite, validate_suite-suite_text}
use sip_protocol.Crypto.Primitives.{Bytes, Primitives}
use sip_protocol.Crypto.Aead.{aead_encrypt}
use sip_protocol.Crypto.Hkdf.{Keys}
use sip_protocol.Protocol.Message.{
  Message, as_value_error, suite_field, generate_replay_tag, optional_tag, encrypt_message,
}
use sip_protocol.Protocol.Message.RoundTrip.{
  get_default-suite_field, decrypt_message-encrypt, verify_replay_tag-generate,
}
use sip_protocol.Transport.Message.{
  Envelope, create_encrypted_message, make_message, is_expired, is_max_hops_reached,
}
use sip_protocol.Transport.Channel.{Channel, established, is_established}
use sip_protocol.Transport.Channel.Send.{SendInputs, check_rekey_needed, seal_text, send}
use sip_protocol.Transport.Channel.Receive.{
  message_of, check_replay_tag, open_payload, receive_checked, advance, receive_counted,
  receive_typed, receive,
}
use sip_protocol.Transport.Channel.Sent.{IsKept, Sent, check_since-IsKept, send-Sent, Sent-IsKept}

-- Each IV is a list of bytes, and each text can be encoded.
abbrev pub AreWritten : List (SendInputs × List ℕ) → Type 0
AreWritten [] = Unit
AreWritten ((i, t) ∷ ts) = (IsBytes i.iv × IsText t) × AreWritten ts

-- No message is expired, for this time to live, at the time at which it is read.
abbrev pub AreAlive : ℕ → List (ℕ × Envelope) → Type 0
AreAlive ttl_ms [] = Unit
AreAlive ttl_ms ((now, m) ∷ ms) = (is_expired now ttl_ms m ≡ false) × AreAlive ttl_ms ms

module _ (p : Primitives) where
  -- The parts of an encrypted message that receiving reads before it decrypts.
  encrypt_message_parts :
      (iv key : Bytes) (now counter : ℕ) (plaintext sender recipient : List ℕ)
      (replay_key : Option Bytes) (suite : List ℕ) (m : Message)
      → encrypt_message p iv now key plaintext sender recipient counter replay_key suite ≡ ok m
      → (m.sender_id ≡ some sender)
        × (m.message_counter ≡ some counter)
        × (m.suite ≡ suite_field suite)
        × (optional_tag p replay_key sender counter suite ≡ ok m.replay_tag)
  unfolding encrypt_message
  encrypt_message_parts iv key now counter plaintext sender recipient replay_key suite m h =
      unbind (validate_suite suite) h λ s hs h1. unbind (Utf8.encode plaintext) h1 λ plain he h2.
        unbind (aead_encrypt p key plain iv none s) h2 λ sealed hsealed h3.
          unbind (optional_tag p replay_key sender counter suite) h3 λ tag htag h4.
            let e = sym (ok-injective h4) in
            (
              ap (λ t. t.sender_id) e,
              ap (λ t. t.message_counter) e,
              ap (λ t. t.suite) e,
              htag ∙ ap (λ t. ok t.replay_tag) (sym e),
            )

  check_replay_tag-optional_tag :
      (keys : Keys) (tag : Option (List ℕ)) (sender : List ℕ) (counter : ℕ) (s : Suite)
      → optional_tag p (some keys.replay_key) sender counter (suite_text s) ≡ ok tag
      → check_replay_tag p (some keys) tag sender counter (suite_field (suite_text s)) ≡ ok tt
  unfolding check_replay_tag optional_tag
  check_replay_tag-optional_tag keys none sender counter s h = refl
  check_replay_tag-optional_tag keys (some []) sender counter s h = refl
  check_replay_tag-optional_tag keys (some (c ∷ tag)) sender counter s h =
      unbind (generate_replay_tag p keys.replay_key sender counter (suite_text s)) h λ made hm h1.
        let same : made ≡ c ∷ tag = ap (λ o. get_default o made) (ok-injective h1) in
        let valid =
          (verify_replay_tag-generate p keys.replay_key sender counter (c ∷ tag) (suite_text s)).1
            (hm ∙ ap ok same) in
        rw (get_default-suite_field s, validate_suite-suite_text s, valid) refl

  receive_counted_ok :
      (b : Channel) (m : Message) (n : ℕ) (t : List ℕ) (r : Result ℕ)
      → r ≡ ok n
      → open_payload p b.session_keys m ≡ ok t
      → receive_counted p b m r
        ≡ (record b { recv_counter = n; messages_received = b.messages_received + 1 }, ok t)
  unfolding receive_counted advance
  receive_counted_ok b m n t r hr ho = rw (hr, ho) refl

  receive-Sent :
      (i : SendInputs) (now : ℕ) (t : List ℕ) (s : Suite) (keys : Keys) (a a' b : Channel)
      (m : Envelope)
      → IsBytes i.iv
      → IsText t
      → a.suite ≡ suite_text s
      → a.session_keys ≡ some keys
      → b.session_keys ≡ some keys
      → is_established b.state ≡ true
      → b.recv_counter ≤ a.send_counter
      → is_expired now b.config.message_ttl_ms m ≡ false
      → Sent p i t a a' m
      → receive p now b m ≡ (
        record b { recv_counter = a'.send_counter; messages_received = b.messages_received + 1 },
        ok t,
      )
  unfolding receive receive_typed receive_checked receive_counted advance open_payload message_of
      is_expired is_max_hops_reached create_encrypted_message make_message seal_text
      check_rekey_needed as_value_error
  receive-Sent i now t s keys a a' b m hiv ht hs ka kb ob le alive sent =
      let k = sent.checked in
      let same : IsKept a k =
        subst (λ x. IsKept a x.0) sent.check_eq
          (check_since-IsKept p i.rekey i.stamp.now a a.established_at) in
      unbind (require k.session_keys assertion_error) sent.seal_eq λ found hf sealed.
        let found_eq : found ≡ keys =
          ok-injective (sym hf ∙ ap (λ o. require o assertion_error) (same.keys_eq ∙ ka)) in
        let enc = rw (found_eq, same.suite_eq, hs) at sealed in
        let (sender_eq, counter_eq, suite_eq, tag_eq) =
          encrypt_message_parts i.iv keys.encryption_key i.stamp.now (k.send_counter + 1) t
            k.agent_id sent.recipient (some keys.replay_key) (suite_text s) sent.message enc in
        let tag_ok =
          check_replay_tag-optional_tag keys sent.message.replay_tag k.agent_id (k.send_counter + 1)
            s tag_eq in
        let opened =
          decrypt_message-encrypt p i.iv keys.encryption_key i.stamp.now (k.send_counter + 1) t
            k.agent_id sent.recipient (some keys.replay_key) s sent.message hiv ht enc in
        let above : ltb b.recv_counter (k.send_counter + 1) ≡ true =
          lt→ltb b.recv_counter (k.send_counter + 1) (omega (arith, le, same.counter_eq)) in
        let live = rw (sent.envelope_eq) at alive in
        let checked : receive_checked p now b
              (create_encrypted_message i.stamp k.agent_id sent.recipient sent.message none)
              sent.message
            ≡ ok (k.send_counter + 1) =
          rw (live, kb, sender_eq, counter_eq, suite_eq, tag_ok, above) refl in
        rw (sent.envelope_eq, ob, sent.next_eq)
          (receive_counted_ok b sent.message (k.send_counter + 1) t _ checked
            (rw kb (subst (λ r. as_value_error r ≡ ok t) (sym opened) refl)))

  -- Texts sent one after the other, each with what `send` draws and reads, and the messages that carry
  -- them, each with a time at which it is read.
  pub data Sends
      : Channel → List (SendInputs × List ℕ) → List (ℕ × Envelope) → Channel → Type 0 where
    silent : {a : Channel} → Sends a [] [] a
    sends :
        {a d e : Channel} {ts : List (SendInputs × List ℕ)} {ms : List (ℕ × Envelope)}
        (i : SendInputs) (t : List ℕ) (to : Option (List ℕ)) (now : ℕ) (m : Envelope)
        → send p i a t to ≡ (d, ok m)
        → Sends d ts ms e
        → Sends a ((i, t) ∷ ts) ((now, m) ∷ ms) e

  -- what receiving the messages in their order returns
  abbrev pub receive_all : Channel → List (ℕ × Envelope) → List (Result (List ℕ))
  receive_all channel [] = []
  receive_all channel ((now, m) ∷ ms) =
      let (next, r) = receive p now channel m in r ∷ receive_all next ms

  -- Texts that can be encoded, and that a channel sends one after the other, successfully and with IVs
  -- of bytes, are received by an established channel that has the same keys and has received no counter above the
  -- sender's, where each message is read before it expires for the receiver: whatever the suite, the
  -- receiver returns the texts in the order in which they were sent.
  pub receive_all-Sends :
      (s : Suite) (keys : Keys) (a a' b : Channel) (ts : List (SendInputs × List ℕ))
      (ms : List (ℕ × Envelope))
      → a.suite ≡ suite_text s
      → a.session_keys ≡ some keys
      → b.session_keys ≡ some keys
      → b.state ≡ established
      → b.recv_counter ≤ a.send_counter
      → AreWritten ts
      → AreAlive b.config.message_ttl_ms ms
      → Sends a ts ms a'
      → receive_all b ms ≡ map (λ x. ok x.1) ts
  unfolding is_established
  receive_all-Sends s keys a a' b ts ms hs ka kb ob le written alive silent = refl
  receive_all-Sends s keys a a' b _ _ hs ka kb ob le written alive
        (sends {d = d} {ts = ts} {ms = ms} i t to now m done rest) =
      let sent = send-Sent p i a d t to m done in
      let same = Sent-IsKept p i t a d m sent in
      let got =
        receive-Sent i now t s keys a d b m written.0.0 written.0.1 hs ka kb (ap is_established ob)
          le alive.0 sent in
      let now_b = record b {
        recv_counter = d.send_counter;
        messages_received = b.messages_received + 1;
      } in
      let later =
        receive_all-Sends s keys d a' now_b ts ms
          (ap (λ c. c.suite) sent.next_eq ∙ same.suite_eq ∙ hs)
          (ap (λ c. c.session_keys) sent.next_eq ∙ same.keys_eq ∙ ka) kb ob (omega arith) written.1
          alive.1 rest in
      rw got (ap (λ r. ok t ∷ r) later)
