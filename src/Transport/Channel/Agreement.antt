-- ===== src/Transport/Channel/Agreement.antt =====
-- Two channels that open a session in the suite EN.
use sip_protocol.Prelude.{
  ℕ, ◌≡◌, refl, ap, sym, true, Bool-cases, inl, inr, Option, some, Result, ok, err, ok-injective,
  runtime_error,
}
use sip_protocol.Python.Bytes.{IsBytes}
use sip_protocol.Crypto.Suite.{en, suite_text}
use sip_protocol.Crypto.Primitives.{Bytes, Primitives}
use sip_protocol.Crypto.Hkdf.{Keys}
use sip_protocol.Protocol.Handshake.{
  Inputs, Hello, Auth, AgentState, Remote, is_fresh, initiate_handshake, respond_handshake,
}
use sip_protocol.Protocol.Handshake.Agreement.{
  held_private, held_public, complete_handshake-respond,
}
use sip_protocol.Transport.Message.{Envelope, Stamp, create_control_message, make_message}
use sip_protocol.Transport.Channel.{
  Channel, initiating, established, handshaking, is_idle, is_handshaking,
}
use sip_protocol.Transport.Channel.Handshake.{
  hello_of, auth_of, initiated, initiate, responded, respond_to_handshake, completed, complete_with,
  complete,
}

module _ (p : Primitives) where
  -- What opening a session leaves at the side that begins.
  record Began (stamp : Stamp) (c d : Channel) (m : Envelope) (r : Result (Hello × AgentState))
      : Type 0 where
    hello : Hello
    agent_state : AgentState
    made : r ≡ ok (hello, agent_state)
    state_eq : d.state ≡ c.state
    handshake_eq : d.handshake_state ≡ initiating agent_state
    hello_eq : hello_of m.payload ≡ hello

  initiated-Began :
      (stamp : Stamp) (c d : Channel) (m : Envelope) (r : Result (Hello × AgentState))
      → initiated p stamp c r ≡ (d, ok m)
      → Began stamp c d m r
  unfolding initiated create_control_message make_message hello_of
  initiated-Began stamp c d m (err e) h = absurd (let k : err e ≡ ok m = ap (λ t. t.1) h in cc)
  initiated-Began stamp c d m (ok (hello, agent_state)) h =
      let m_eq = ok-injective (ap (λ t. t.1) h) in
      record {
        hello = hello;
        agent_state = agent_state;
        made = refl;
        state_eq = sym (ap (λ t. t.0.state) h);
        handshake_eq = sym (ap (λ t. t.0.handshake_state) h);
        hello_eq = sym (ap (λ t. hello_of t.payload) m_eq);
      }

  initiate-Began :
      (inputs : Inputs) (stamp : Stamp) (c d : Channel) (m : Envelope)
      → initiate p inputs stamp c ≡ (d, ok m)
      → Began stamp
          (record c { state = handshaking })
          d
          m
          (initiate_handshake p inputs c.psk c.identity_private_key c.identity_public_key c.suite)
  unfolding initiate
  initiate-Began inputs stamp c d m h = elim (Bool-cases (is_idle c.state)) [
    | inr e ↦ absurd (let k : err runtime_error ≡ ok m = ap (λ t. t.1) (rw e at h) in cc)
    | inl e ↦ initiated-Began stamp (record c { state = handshaking }) d m _ (rw e at h)
  ]

  -- What opening a session leaves at the side that answers.
  record Responded (d : Channel) (m : Envelope) (r : Result (Auth × AgentState × Remote × Keys))
      : Type 0 where
    auth : Auth
    agent_state : AgentState
    remote : Remote
    keys : Keys
    made : r ≡ ok (auth, agent_state, remote, keys)
    state_eq : d.state ≡ established
    keys_eq : d.session_keys ≡ some keys
    auth_eq : auth_of m.payload ≡ auth

  responded-Responded :
      (stamp : Stamp) (c d : Channel) (hello m : Envelope)
      (r : Result (Auth × AgentState × Remote × Keys))
      → responded p stamp c hello r ≡ (d, ok m)
      → Responded d m r
  unfolding responded create_control_message make_message auth_of
  responded-Responded stamp c d hello m (err e) h =
      absurd (let k : err e ≡ ok m = ap (λ t. t.1) h in cc)
  responded-Responded stamp c d hello m (ok (auth, agent_state, remote, keys)) h =
      let m_eq = ok-injective (ap (λ t. t.1) h) in
      record {
        auth = auth;
        agent_state = agent_state;
        remote = remote;
        keys = keys;
        made = refl;
        state_eq = sym (ap (λ t. t.0.state) h);
        keys_eq = sym (ap (λ t. t.0.session_keys) h);
        auth_eq = sym (ap (λ t. auth_of t.payload) m_eq);
      }

  respond_to_handshake-Responded :
      (inputs : Inputs) (stamp : Stamp) (c d : Channel) (hello m : Envelope)
      → respond_to_handshake p inputs stamp c hello ≡ (d, ok m)
      → Responded d m (
          respond_handshake p inputs
            (hello_of hello.payload)
            c.psk
            c.identity_private_key
            c.identity_public_key
            c.suite)
  unfolding respond_to_handshake
  respond_to_handshake-Responded inputs stamp c d hello m h = elim (Bool-cases (is_idle c.state)) [
    | inr e ↦ absurd (let k : err runtime_error ≡ ok m = ap (λ t. t.1) (rw e at h) in cc)
    | inl e ↦
        responded-Responded stamp
          (record c { state = handshaking; remote_agent_id = some hello.sender_id }) d hello m _
          (rw e at h)
  ]

  -- Two idle channels with the same PSK, each without an identity or with a key pair of X25519, with
  -- nonces of bytes: where the first opens a session and the second answers, and the answer is fresh
  -- when the first reads it, the first completes the session, and both are then established with
  -- the same keys.
  pub complete-respond_to_handshake :
      (inputs_a inputs_b : Inputs) (stamp_a stamp_b : Stamp) (held_a held_b : Option Bytes)
      (a a' b b' : Channel) (hello auth : Envelope) (now : ℕ)
      → IsBytes inputs_a.nonce
      → IsBytes inputs_b.nonce
      → a.psk ≡ b.psk
      → a.suite ≡ suite_text en
      → b.suite ≡ suite_text en
      → (a.identity_private_key ≡ held_private held_a)
        × (a.identity_public_key ≡ held_public p held_a)
      → (b.identity_private_key ≡ held_private held_b)
        × (b.identity_public_key ≡ held_public p held_b)
      → initiate p inputs_a stamp_a a ≡ (a', ok hello)
      → respond_to_handshake p inputs_b stamp_b b hello ≡ (b', ok auth)
      → is_fresh now inputs_b.made_at ≡ true
      → ((complete p now a' auth).1 ≡ ok tt)
        × ((complete p now a' auth).0.state ≡ established)
        × (b'.state ≡ established)
        × (keys : Keys) × ((complete p now a' auth).0.session_keys ≡ some keys)
        × (b'.session_keys ≡ some keys)
  unfolding complete completed complete_with is_handshaking
  complete-respond_to_handshake inputs_a inputs_b stamp_a stamp_b held_a held_b a a' b b' hello auth
        now hna hnb hp sa sb ia ib ha hb fresh =
      let began = initiate-Began inputs_a stamp_a a a' hello ha in
      let answer = respond_to_handshake-Responded inputs_b stamp_b b b' hello auth hb in
      let (session, done, _) =
        complete_handshake-respond p a.psk inputs_a inputs_b held_a held_b began.hello
          began.agent_state answer.agent_state answer.auth answer.remote answer.keys now now hna hnb
          (rw (sym sa, sym ia.0, sym ia.1) began.made)
          (rw (hp, sym sb, sym ib.0, sym ib.1, sym began.hello_eq) answer.made) fresh in
      rw (began.state_eq, began.handshake_eq, answer.auth_eq, done)
        (refl, refl, answer.state_eq, answer.keys, refl, answer.keys_eq)
