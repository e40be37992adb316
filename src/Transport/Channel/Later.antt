-- ===== src/Transport/Channel/Later.antt =====
-- Which way the operations of transport/encrypted_channel.py move the counters of a channel, once its
-- handshake is over.
use sip_protocol.Prelude.{
  ◌∙◌, not, guard, guard-eq-ok, ltb, ltb→lt, value_error, ok-injective, ℕ, zero, suc, ◌+◌, ◌≤◌, ◌≡◌,
  refl, List, Bool, true, false, Option, none, some, Result, ok, err, unbind, arith, if◌then◌else◌,
  get_default, [],
}
use sip_protocol.Crypto.Primitives.{Primitives}
use sip_protocol.Crypto.Hkdf.{Keys}
use sip_protocol.Protocol.Message.{Message}
use sip_protocol.Protocol.Rekey.{RekeyInputs, RekeyRequest, RekeyResponse, RekeyManager}
use sip_protocol.Transport.Message.{
  is_expired, is_max_hops_reached, Envelope, Stamp, MessageType, text_message, encrypted_message,
  control_message,
}
use sip_protocol.Transport.Channel.{
  Channel, ChannelState, HandshakeState, no_handshake, initiating, responding, rekey_pending,
  handshaking, rekeying, is_established, is_idle, is_handshaking, is_rekeying, idle,
  update_session_keys, close,
}
use sip_protocol.Transport.Channel.Handshake.{initiate, respond_to_handshake, complete}
use sip_protocol.Transport.Channel.Send.{
  SendInputs, is_rekey_due, rekey_started, initiate_rekey, check_since, check_rekey_needed,
  wrap_message, send_checked, send_to, send,
}
use sip_protocol.Transport.Channel.Receive.{
  message_of, action_of, error_of, check_replay_tag, receive_checked, handle_control_message,
  advance, receive_counted, receive_typed, receive,
}
use sip_protocol.Transport.Channel.Rekey.{
  switch_keys, use_response, response_with, finish_rekey, save_keys, handle_rekey_request,
}
use sip_protocol.Transport.Channel.Steps.{
  Step, initiates, responds, completes, sends, receives, finishes, answers, updates, closes, Reach,
  here, next,
}

-- The handshake is over: no operation leads back to it.
abbrev pub is_past : ChannelState → Bool
is_past idle = false
is_past handshaking = false
is_past other = true

-- A channel whose handshake is over, and what it may become: the counters only grow, the time of
-- establishment and the configuration stay.
pub record IsLater (c d : Channel) : Type 0 where
  pub past : is_past d.state ≡ true
  pub received : c.recv_counter ≤ d.recv_counter
  pub sent : c.send_counter ≤ d.send_counter
  pub config_eq : d.config ≡ c.config
  pub since_eq : d.established_at ≡ c.established_at

same : (c : Channel) → is_past c.state ≡ true → IsLater c c
same c h = record {
  past = h;
  received = omega arith;
  sent = omega arith;
  config_eq = refl;
  since_eq = refl;
}

IsLater-trans : {c d e : Channel} → IsLater c d → IsLater d e → IsLater c e
IsLater-trans h k = record {
  past = k.past;
  received = omega (arith, h.received, k.received);
  sent = omega (arith, h.sent, k.sent);
  config_eq = k.config_eq ∙ h.config_eq;
  since_eq = k.since_eq ∙ h.since_eq;
}

if-IsLater :
    {A : Type 0} (b : Bool) (c : Channel) (x y : Channel × Result A)
    → (b ≡ true → IsLater c x.0)
    → IsLater c y.0
    → IsLater c (if b then x else y).0
if-IsLater true c x y hx hy = hx refl
if-IsLater false c x y hx hy = hy

past_idle :
    (state : ChannelState)
    → is_past state ≡ true
    → (is_idle state ≡ false) × (is_handshaking state ≡ false)
unfolding is_idle is_handshaking
past_idle state h = ground (arith, h)

close-IsLater : (c : Channel) → IsLater c (close c)
unfolding close
close-IsLater c = record {
  past = refl;
  received = omega arith;
  sent = omega arith;
  config_eq = refl;
  since_eq = refl;
}

update_session_keys-IsLater :
    (c : Channel) (keys : Keys) → is_past c.state ≡ true → IsLater c (update_session_keys c keys)
unfolding update_session_keys
update_session_keys-IsLater c keys h = record {
  past = h;
  received = omega arith;
  sent = omega arith;
  config_eq = refl;
  since_eq = refl;
}

handle_control_message-IsLater :
    (c : Channel) (action : List ℕ) (reason : Option (List ℕ))
    → is_past c.state ≡ true
    → IsLater c (handle_control_message c action reason).0
unfolding handle_control_message
handle_control_message-IsLater c action reason h = ground (arith, same c h, close-IsLater c)

module _ (p : Primitives) where
  rekey_started-IsLater :
      (now : ℕ) (c : Channel) (r : Result (RekeyRequest × RekeyManager))
      → IsLater c (rekey_started p now (record c { state = rekeying }) r).0
  unfolding rekey_started
  rekey_started-IsLater now c (err e) = ground arith
  rekey_started-IsLater now c (ok (request, manager)) = ground arith

  check_since-IsLater :
      (i : RekeyInputs) (now : ℕ) (c : Channel) (o : Option ℕ)
      → is_past c.state ≡ true
      → IsLater c (check_since p i now c o).0
  unfolding check_since initiate_rekey
  check_since-IsLater i now c none h = same c h
  check_since-IsLater i now c (some zero) h = same c h
  check_since-IsLater i now c (some (suc since)) h =
      if-IsLater (is_rekeying c.state) c _ _ (λ _. same c h)
        (if-IsLater (is_rekey_due now c (suc since)) c _ _ (λ _. rekey_started-IsLater now c _)
          (same c h))

  wrap_message-IsLater :
      (stamp : Stamp) (c d : Channel) (to : List ℕ) (r : Result Message)
      → IsLater c d
      → IsLater c (wrap_message p stamp (record d { send_counter = d.send_counter + 1 }) to r).0
  unfolding wrap_message
  wrap_message-IsLater stamp c d to (err e) h = ground (arith, h)
  wrap_message-IsLater stamp c d to (ok m) h = ground (arith, h)

  send_checked-IsLater :
      (i : SendInputs) (t to : List ℕ) (c : Channel) (r : Channel × Result (Unit {0}))
      → IsLater c r.0
      → IsLater c (send_checked p i t to r).0
  unfolding send_checked
  send_checked-IsLater i t to c (d, err e) h = h
  send_checked-IsLater i t to c (d, ok u) h = wrap_message-IsLater i.stamp c d to _ h

  send_to-IsLater :
      (i : SendInputs) (c : Channel) (t : List ℕ) (to : Option (List ℕ))
      → is_past c.state ≡ true
      → IsLater c (send_to p i c t to).0
  unfolding send_to check_rekey_needed
  send_to-IsLater i c t none h = same c h
  send_to-IsLater i c t (some to) h =
      send_checked-IsLater i t to c _ (check_since-IsLater i.rekey i.stamp.now c c.established_at h)

  pub send-IsLater :
      (i : SendInputs) (c : Channel) (t : List ℕ) (to : Option (List ℕ))
      → is_past c.state ≡ true
      → IsLater c (send p i c t to).0
  unfolding send
  send-IsLater i c t to h =
      if-IsLater (is_established c.state) c _ _ (λ _. send_to-IsLater i c t _ h) (same c h)

  -- A counter that passes the checks is above the channel's.
  receive_checked-above :
      (now : ℕ) (c : Channel) (m : Envelope) (message : Message) (n : ℕ)
      → receive_checked p now c m message ≡ ok n
      → c.recv_counter ≤ n
  unfolding receive_checked
  receive_checked-above now c m message n h =
      let counter = get_default message.message_counter 0 in
      unbind (guard (not (is_expired now c.config.message_ttl_ms m)) value_error) h λ u1 g1 h1.
        unbind (guard (not (is_max_hops_reached m)) value_error) h1 λ u2 g2 h2.
          unbind
            (check_replay_tag p c.session_keys message.replay_tag
              (get_default message.sender_id m.sender_id) counter message.suite)
            h2
            λ u3 g3 h3. unbind (guard (ltb c.recv_counter counter) value_error) h3 λ u4 g4 h4.
              omega (
                arith,
                ltb→lt c.recv_counter counter
                    (guard-eq-ok (ltb c.recv_counter counter) value_error g4),
                ok-injective h4,
              )

  advance-IsLater :
      (c : Channel) (n : ℕ) (r : Result (List ℕ))
      → is_past c.state ≡ true
      → c.recv_counter ≤ n
      → IsLater c (advance p c n r).0
  unfolding advance
  advance-IsLater c n (err e) h le = ground (arith, h, le)
  advance-IsLater c n (ok t) h le = ground (arith, h, le)

  receive_counted-IsLater :
      (c : Channel) (m : Message) (r : Result ℕ)
      → is_past c.state ≡ true
      → ((n : ℕ) → r ≡ ok n → c.recv_counter ≤ n)
      → IsLater c (receive_counted p c m r).0
  unfolding receive_counted
  receive_counted-IsLater c m (err e) h above = same c h
  receive_counted-IsLater c m (ok n) h above = advance-IsLater c n _ h (above n refl)

  receive_typed-IsLater :
      (now : ℕ) (c : Channel) (m : Envelope) (t : MessageType)
      → is_past c.state ≡ true
      → IsLater c (receive_typed p now c m t).0
  unfolding receive_typed
  receive_typed-IsLater now c m control_message h =
      handle_control_message-IsLater c (get_default (action_of m.payload) []) (error_of m.payload) h
  receive_typed-IsLater now c m text_message h = same c h
  receive_typed-IsLater now c m encrypted_message h =
      receive_counted-IsLater c _ _ h (receive_checked-above now c m (message_of m.payload))

  receive-IsLater :
      (now : ℕ) (c : Channel) (m : Envelope)
      → is_past c.state ≡ true
      → IsLater c (receive p now c m).0
  unfolding receive
  receive-IsLater now c m h =
      if-IsLater (is_established c.state) c _ _
        (λ _. receive_typed-IsLater now c m m.message_type h) (same c h)

  switch_keys-IsLater :
      (c : Channel) (request : RekeyRequest) (o : Option Keys) (manager : RekeyManager)
      → is_past c.state ≡ true
      → IsLater c (switch_keys p c request o manager).0
  unfolding switch_keys
  switch_keys-IsLater c request none manager h = ground (arith, h)
  switch_keys-IsLater c request (some old) manager h = ground (arith, h)

  use_response-IsLater :
      (c : Channel) (request : RekeyRequest) (r : Result (Keys × RekeyManager))
      → is_past c.state ≡ true
      → IsLater c (use_response p c request r).0
  unfolding use_response
  use_response-IsLater c request (err e) h = same c h
  use_response-IsLater c request (ok (new_keys, manager)) h =
      switch_keys-IsLater c request c.session_keys _ h

  response_with-IsLater :
      (now : ℕ) (c : Channel) (response : RekeyResponse) (s : HandshakeState)
      → is_past c.state ≡ true
      → IsLater c (response_with p now c response s).0
  unfolding response_with
  response_with-IsLater now c response (rekey_pending manager request) h =
      use_response-IsLater c request _ h
  response_with-IsLater now c response no_handshake h = same c h
  response_with-IsLater now c response (initiating s) h = same c h
  response_with-IsLater now c response (responding s remote) h = same c h

  save_keys-IsLater :
      (c : Channel) (r : Result (RekeyResponse × Keys))
      → is_past c.state ≡ true
      → IsLater c (save_keys p c r).0
  unfolding save_keys
  save_keys-IsLater c (err e) h = same c h
  save_keys-IsLater c (ok (response, keys)) h = ground (arith, h)

  Step-IsLater : {c d : Channel} → Step p c d → is_past c.state ≡ true → IsLater c d
  unfolding initiate respond_to_handshake complete finish_rekey handle_rekey_request
  Step-IsLater (initiates i stamp c) h = rw ((past_idle c.state h).0) (same c h)
  Step-IsLater (responds i stamp c m) h = rw ((past_idle c.state h).0) (same c h)
  Step-IsLater (completes now c m) h = rw ((past_idle c.state h).1) (same c h)
  Step-IsLater (sends i c t to) h = send-IsLater i c t to h
  Step-IsLater (receives now c m) h = receive-IsLater now c m h
  Step-IsLater (finishes now c r) h = response_with-IsLater now c r c.handshake_state h
  Step-IsLater (answers i c r) h = save_keys-IsLater c _ h
  Step-IsLater (updates c keys) h = update_session_keys-IsLater c keys h
  Step-IsLater (closes c) h = close-IsLater c

  -- What a channel whose handshake is over becomes.
  pub Reach-IsLater : {c d : Channel} → is_past c.state ≡ true → Reach p c d → IsLater c d
  Reach-IsLater {c = c} h here = same c h
  Reach-IsLater h (next r step) =
      let before = Reach-IsLater h r in IsLater-trans before (Step-IsLater step before.past)
