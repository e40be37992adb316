-- ===== src/Transport/Channel/Soundness.antt =====
-- What each operation of transport/encrypted_channel.py keeps of a channel's state.
use sip_protocol.Prelude.{
  ℕ, zero, suc, ◌+◌, ◌≤◌, require, require-eq-ok, ◌≡◌, refl, ap, List, Bool, true, false, Option,
  none, some, Result, ok, err, unbind, arith, if◌then◌else◌, assertion_error, get_default, [],
}
use sip_protocol.Crypto.Primitives.{Primitives}
use sip_protocol.Crypto.Hkdf.{Keys}
use sip_protocol.Protocol.Handshake.{Inputs, Hello, Auth, AgentState, Remote, Session}
use sip_protocol.Protocol.Message.{Message}
use sip_protocol.Protocol.Rekey.{RekeyInputs, RekeyRequest, RekeyResponse, RekeyManager}
use sip_protocol.Transport.Message.{
  Envelope, Stamp, MessageType, text_message, encrypted_message, control_message,
}
use sip_protocol.Transport.Channel.{
  Channel, ChannelState, HandshakeState, no_handshake, initiating, responding, rekey_pending,
  handshaking, established, rekeying, closed, is_established, is_idle, is_handshaking, is_rekeying,
  fail, update_session_keys, close,
}
use sip_protocol.Transport.Channel.Handshake.{
  initiated, initiate, responded, respond_to_handshake, completed, complete,
}
use sip_protocol.Transport.Channel.Send.{
  SendInputs, is_rekey_due, rekey_started, initiate_rekey, check_since, check_rekey_needed,
  wrap_message, send_checked, send_to, send,
}
use sip_protocol.Transport.Channel.Receive.{
  action_of, error_of, handle_control_message, advance, receive_counted, receive_typed, receive,
}
use sip_protocol.Transport.Channel.Rekey.{
  switch_keys, use_response, response_with, finish_rekey, answer_rekey, save_keys,
  handle_rekey_request,
}

abbrev is_open : ChannelState → Bool
is_open established = true
is_open rekeying = true
is_open other = false

abbrev is_closed : ChannelState → Bool
is_closed closed = true
is_closed other = false

abbrev is_pending : HandshakeState → Bool
is_pending (rekey_pending manager request) = true
is_pending other = false

abbrev has_keys : Option Keys → Bool
has_keys none = false
has_keys (some keys) = true

-- An open channel has keys, and so has one with a change of keys under way; a closed one has neither
-- keys nor a handshake; no more messages were sent than counters were used.
pub record IsSound (c : Channel) : Type 0 where
  pub open_keys : is_open c.state ≡ true → has_keys c.session_keys ≡ true
  pub pending_keys : is_pending c.handshake_state ≡ true → has_keys c.session_keys ≡ true
  pub closed_keys :
      is_closed c.state ≡ true → (c.session_keys ≡ none) × (c.handshake_state ≡ no_handshake)
  pub sent_counted : c.messages_sent ≤ c.send_counter

if-IsSound :
    {A : Type 0} (b : Bool) (x y : Channel × Result A)
    → (b ≡ true → IsSound x.0)
    → IsSound y.0
    → IsSound (if b then x else y).0
if-IsSound true x y hx hy = hx refl
if-IsSound false x y hx hy = hy

pub close-IsSound : (c : Channel) → IsSound c → IsSound (close c)
unfolding close
close-IsSound c h = ground (arith, h)

pub update_session_keys-IsSound :
    (c : Channel) (keys : Keys) → IsSound c → IsSound (update_session_keys c keys)
unfolding update_session_keys
update_session_keys-IsSound c keys h = ground (arith, h)

handle_control_message-IsSound :
    (c : Channel) (action : List ℕ) (reason : Option (List ℕ))
    → IsSound c
    → IsSound (handle_control_message c action reason).0
unfolding handle_control_message
handle_control_message-IsSound c action reason h = ground (arith, h, close-IsSound c h)

module _ (p : Primitives) where
  initiated-IsSound :
      (stamp : Stamp) (c : Channel) (r : Result (Hello × AgentState))
      → is_idle c.state ≡ true
      → IsSound c
      → IsSound (initiated p stamp (record c { state = handshaking }) r).0
  unfolding initiated fail
  initiated-IsSound stamp c (err e) idle_now h = ground (arith, h)
  initiated-IsSound stamp c (ok (hello, s)) idle_now h = ground (arith, h)

  pub initiate-IsSound :
      (i : Inputs) (stamp : Stamp) (c : Channel) → IsSound c → IsSound (initiate p i stamp c).0
  unfolding initiate
  initiate-IsSound i stamp c h =
      if-IsSound (is_idle c.state) _ _ (λ e. initiated-IsSound stamp c _ e h) h

  responded-IsSound :
      (stamp : Stamp) (c : Channel) (m : Envelope) (r : Result (Auth × AgentState × Remote × Keys))
      → IsSound c
      → IsSound
          (responded p stamp
            (record c { state = handshaking; remote_agent_id = some m.sender_id })
            m
            r).0
  unfolding responded fail
  responded-IsSound stamp c m (err e) h = ground (arith, h)
  responded-IsSound stamp c m (ok (auth, s, remote, keys)) h = ground (arith, h)

  completed-IsSound :
      (now : ℕ) (c : Channel) (m : Envelope) (r : Result (Keys × Session))
      → IsSound c
      → IsSound (completed p now c m r).0
  unfolding completed fail
  completed-IsSound now c m (err e) h = ground (arith, h)
  completed-IsSound now c m (ok (keys, session)) h = ground (arith, h)

  pub respond_to_handshake-IsSound :
      (i : Inputs) (stamp : Stamp) (c : Channel) (m : Envelope)
      → IsSound c
      → IsSound (respond_to_handshake p i stamp c m).0
  unfolding respond_to_handshake
  respond_to_handshake-IsSound i stamp c m h =
      if-IsSound (is_idle c.state) _ _ (λ e. responded-IsSound stamp c m _ h) h

  pub complete-IsSound :
      (now : ℕ) (c : Channel) (m : Envelope) → IsSound c → IsSound (complete p now c m).0
  unfolding complete
  complete-IsSound now c m h =
      if-IsSound (is_handshaking c.state) _ _ (λ e. completed-IsSound now c m _ h) h

  rekey_started-IsSound :
      (now : ℕ) (c : Channel) (r : Result (RekeyRequest × RekeyManager))
      → has_keys c.session_keys ≡ true
      → IsSound c
      → IsSound (rekey_started p now (record c { state = rekeying }) r).0
  unfolding rekey_started
  rekey_started-IsSound now c (err e) keyed h = ground (arith, h, keyed)
  rekey_started-IsSound now c (ok (request, manager)) keyed h = ground (arith, h, keyed)

  check_since-IsSound :
      (i : RekeyInputs) (now : ℕ) (c : Channel) (o : Option ℕ)
      → has_keys c.session_keys ≡ true
      → IsSound c
      → IsSound (check_since p i now c o).0
  unfolding check_since initiate_rekey
  check_since-IsSound i now c none keyed h = h
  check_since-IsSound i now c (some zero) keyed h = h
  check_since-IsSound i now c (some (suc since)) keyed h =
      if-IsSound (is_rekeying c.state) _ _ (λ _. h)
        (if-IsSound (is_rekey_due now c (suc since)) _ _
          (λ _. rekey_started-IsSound now c _ keyed h) h)

  wrap_message-IsSound :
      (stamp : Stamp) (c : Channel) (to : List ℕ) (r : Result Message)
      → IsSound c
      → IsSound (wrap_message p stamp (record c { send_counter = c.send_counter + 1 }) to r).0
  unfolding wrap_message
  wrap_message-IsSound stamp c to (err e) h = ground (arith, h)
  wrap_message-IsSound stamp c to (ok m) h = ground (arith, h)

  send_checked-IsSound :
      (i : SendInputs) (t to : List ℕ) (r : Channel × Result (Unit {0}))
      → IsSound r.0
      → IsSound (send_checked p i t to r).0
  unfolding send_checked
  send_checked-IsSound i t to (c, err e) h = h
  send_checked-IsSound i t to (c, ok u) h = wrap_message-IsSound i.stamp c to _ h

  send_to-IsSound :
      (i : SendInputs) (c : Channel) (t : List ℕ) (to : Option (List ℕ))
      → has_keys c.session_keys ≡ true
      → IsSound c
      → IsSound (send_to p i c t to).0
  unfolding send_to check_rekey_needed
  send_to-IsSound i c t none keyed h = h
  send_to-IsSound i c t (some to) keyed h =
      send_checked-IsSound i t to _
        (check_since-IsSound i.rekey i.stamp.now c c.established_at keyed h)

  open_of_established : (state : ChannelState) → is_established state ≡ true → is_open state ≡ true
  unfolding is_established
  open_of_established state h = ground arith

  pub send-IsSound :
      (i : SendInputs) (c : Channel) (t : List ℕ) (to : Option (List ℕ))
      → IsSound c
      → IsSound (send p i c t to).0
  unfolding send
  send-IsSound i c t to h =
      if-IsSound (is_established c.state) _ _
        (λ e. send_to-IsSound i c t _ (h.open_keys (open_of_established c.state e)) h) h

  advance-IsSound :
      (c : Channel) (n : ℕ) (r : Result (List ℕ)) → IsSound c → IsSound (advance p c n r).0
  unfolding advance
  advance-IsSound c n (err e) h = ground (arith, h)
  advance-IsSound c n (ok t) h = ground (arith, h)

  receive_counted-IsSound :
      (c : Channel) (m : Message) (r : Result ℕ) → IsSound c → IsSound (receive_counted p c m r).0
  unfolding receive_counted
  receive_counted-IsSound c m (err e) h = h
  receive_counted-IsSound c m (ok n) h = advance-IsSound c n _ h

  receive_typed-IsSound :
      (now : ℕ) (c : Channel) (m : Envelope) (t : MessageType)
      → IsSound c
      → IsSound (receive_typed p now c m t).0
  unfolding receive_typed
  receive_typed-IsSound now c m control_message h =
      handle_control_message-IsSound c (get_default (action_of m.payload) []) (error_of m.payload) h
  receive_typed-IsSound now c m text_message h = h
  receive_typed-IsSound now c m encrypted_message h = receive_counted-IsSound c _ _ h

  pub receive-IsSound :
      (now : ℕ) (c : Channel) (m : Envelope) → IsSound c → IsSound (receive p now c m).0
  unfolding receive
  receive-IsSound now c m h =
      if-IsSound (is_established c.state) _ _ (λ _. receive_typed-IsSound now c m m.message_type h)
        h

  switch_keys-IsSound :
      (c : Channel) (request : RekeyRequest) (o : Option Keys) (manager : RekeyManager)
      → has_keys o ≡ true
      → IsSound c
      → IsSound (switch_keys p c request o manager).0
  unfolding switch_keys
  switch_keys-IsSound c request none manager keyed h = absurd (cc)
  switch_keys-IsSound c request (some old) manager keyed h = ground (arith, h)

  use_response-IsSound :
      (c : Channel) (request : RekeyRequest) (r : Result (Keys × RekeyManager))
      → has_keys c.session_keys ≡ true
      → IsSound c
      → IsSound (use_response p c request r).0
  unfolding use_response
  use_response-IsSound c request (err e) keyed h = h
  use_response-IsSound c request (ok (new_keys, manager)) keyed h =
      switch_keys-IsSound c request c.session_keys _ keyed h

  response_with-IsSound :
      (now : ℕ) (c : Channel) (response : RekeyResponse) (s : HandshakeState)
      → (is_pending s ≡ true → has_keys c.session_keys ≡ true)
      → IsSound c
      → IsSound (response_with p now c response s).0
  unfolding response_with
  response_with-IsSound now c response (rekey_pending manager request) keyed h =
      use_response-IsSound c request _ (keyed refl) h
  response_with-IsSound now c response no_handshake keyed h = h
  response_with-IsSound now c response (initiating s) keyed h = h
  response_with-IsSound now c response (responding s remote) keyed h = h

  pub finish_rekey-IsSound :
      (now : ℕ) (c : Channel) (r : RekeyResponse) → IsSound c → IsSound (finish_rekey p now c r).0
  unfolding finish_rekey
  finish_rekey-IsSound now c r h = response_with-IsSound now c r c.handshake_state h.pending_keys h

  save_keys-IsSound :
      (c : Channel) (r : Result (RekeyResponse × Keys))
      → ((x : RekeyResponse × Keys) → r ≡ ok x → has_keys c.session_keys ≡ true)
      → IsSound c
      → IsSound (save_keys p c r).0
  unfolding save_keys
  save_keys-IsSound c (err e) keyed h = h
  save_keys-IsSound c (ok (response, keys)) keyed h =
      let before = keyed (response, keys) refl in ground (arith, h, before)

  answer_rekey-keyed :
      (i : RekeyInputs) (c : Channel) (r : RekeyRequest) (x : RekeyResponse × Keys)
      → answer_rekey p i c r ≡ ok x
      → has_keys c.session_keys ≡ true
  unfolding answer_rekey
  answer_rekey-keyed i c r x h =
      unbind (require c.session_keys assertion_error) h
        λ keys hk h1. ap has_keys (require-eq-ok c.session_keys assertion_error hk)

  pub handle_rekey_request-IsSound :
      (i : RekeyInputs) (c : Channel) (r : RekeyRequest)
      → IsSound c
      → IsSound (handle_rekey_request p i c r).0
  unfolding handle_rekey_request
  handle_rekey_request-IsSound i c r h = save_keys-IsSound c _ (answer_rekey-keyed i c r) h
