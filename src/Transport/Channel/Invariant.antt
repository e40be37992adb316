-- ===== src/Transport/Channel/Invariant.antt =====
-- What holds of a channel whatever operations it goes through, and what is left of it after `close`.
use mathlib.Core.Path.{subst}
use sip_protocol.Prelude.{ℕ, ◌≡◌, refl, List, false, Option, none, ok, unbind, ok-injective, arith}
use sip_protocol.Crypto.Suite.{validate_suite}
use sip_protocol.Crypto.Primitives.{Bytes, Primitives}
use sip_protocol.Crypto.Dh.{PrivateKey, PublicKey}
use sip_protocol.Transport.Channel.{
  Channel, ChannelState, ChannelConfig, no_handshake, closed, make_channel, is_established, is_idle,
  is_handshaking, update_session_keys, close,
}
use sip_protocol.Transport.Channel.Handshake.{initiate, respond_to_handshake, complete}
use sip_protocol.Transport.Channel.Send.{send}
use sip_protocol.Transport.Channel.Receive.{receive}
use sip_protocol.Transport.Channel.Rekey.{
  response_with, finish_rekey, answer_rekey, save_keys, handle_rekey_request,
}
use sip_protocol.Transport.Channel.Steps.{
  Step, initiates, responds, completes, sends, receives, finishes, answers, updates, closes, Reach,
  here, next,
}
use sip_protocol.Transport.Channel.Soundness.{
  IsSound, close-IsSound, initiate-IsSound, respond_to_handshake-IsSound, complete-IsSound,
  send-IsSound, receive-IsSound, finish_rekey-IsSound, handle_rekey_request-IsSound,
  update_session_keys-IsSound,
}

module _ (p : Primitives) where
  Step-IsSound : {c d : Channel} → Step p c d → IsSound c → IsSound d
  Step-IsSound (initiates i stamp c) h = initiate-IsSound p i stamp c h
  Step-IsSound (responds i stamp c m) h = respond_to_handshake-IsSound p i stamp c m h
  Step-IsSound (completes now c m) h = complete-IsSound p now c m h
  Step-IsSound (sends i c t to) h = send-IsSound p i c t to h
  Step-IsSound (receives now c m) h = receive-IsSound p now c m h
  Step-IsSound (finishes now c r) h = finish_rekey-IsSound p now c r h
  Step-IsSound (answers i c r) h = handle_rekey_request-IsSound p i c r h
  Step-IsSound (updates c keys) h = update_session_keys-IsSound c keys h
  Step-IsSound (closes c) h = close-IsSound c h

  Reach-IsSound : {c d : Channel} → IsSound c → Reach p c d → IsSound d
  Reach-IsSound h here = h
  Reach-IsSound h (next r step) = Step-IsSound step (Reach-IsSound h r)

  made-IsSound :
      (agent_id : List ℕ) (psk : Bytes) (config : ChannelConfig) (private : Option PrivateKey)
      (public : Option PublicKey) (suite : List ℕ) (c : Channel)
      → make_channel agent_id psk config private public suite ≡ ok c
      → IsSound c
  unfolding make_channel
  made-IsSound agent_id psk config private public suite c h =
      unbind (validate_suite suite) h λ s hs h1. subst IsSound (ok-injective h1) (ground arith)

  -- Whatever operations a new channel goes through, in whatever order and with whatever arguments
  -- and results: where it is established or rekeying it has session keys, and also where a change of
  -- keys that it asked for is pending; where it is closed it has neither session keys nor the state
  -- of a handshake; and it has counted no more messages as sent than counters as used.
  pub Reach-made-IsSound :
      (agent_id : List ℕ) (psk : Bytes) (config : ChannelConfig) (private : Option PrivateKey)
      (public : Option PublicKey) (suite : List ℕ) (made c : Channel)
      → make_channel agent_id psk config private public suite ≡ ok made
      → Reach p made c
      → IsSound c
  Reach-made-IsSound agent_id psk config private public suite made c h r =
      Reach-IsSound (made-IsSound agent_id psk config private public suite made h) r

  abbrev IsShut : Channel → Type 0
  IsShut c = (c.state ≡ closed) × (c.session_keys ≡ none) × (c.handshake_state ≡ no_handshake)

  shut_idle :
      (state : ChannelState)
      → state ≡ closed
      → (is_idle state ≡ false) × (is_established state ≡ false) × (is_handshaking state ≡ false)
  unfolding is_idle is_established is_handshaking
  shut_idle state h = rw h (refl, refl, refl)

  Step-IsShut : {c d : Channel} → Step p c d → IsShut c → IsShut d
  unfolding initiate respond_to_handshake complete send receive finish_rekey response_with
      handle_rekey_request answer_rekey save_keys update_session_keys close
  Step-IsShut (initiates i stamp c) h = rw ((shut_idle c.state h.0).0) h
  Step-IsShut (responds i stamp c m) h = rw ((shut_idle c.state h.0).0) h
  Step-IsShut (completes now c m) h = rw ((shut_idle c.state h.0).2) h
  Step-IsShut (sends i c t to) h = rw ((shut_idle c.state h.0).1) h
  Step-IsShut (receives now c m) h = rw ((shut_idle c.state h.0).1) h
  Step-IsShut (finishes now c r) h = rw (response_with, h.2) h
  Step-IsShut (answers i c r) h = rw (save_keys, h.1) h
  Step-IsShut (updates c keys) h = rw (h.1) (h.0, refl, h.2)
  Step-IsShut (closes c) h = (refl, refl, refl)

  Reach-IsShut : {c d : Channel} → IsShut c → Reach p c d → IsShut d
  Reach-IsShut h here = h
  Reach-IsShut h (next r step) = Step-IsShut step (Reach-IsShut h r)

  -- `close` is final: whatever operations a channel goes through after it, `update_session_keys`
  -- included, it stays closed and has no session keys.
  pub close_final :
      (c d : Channel) → Reach p (close c) d → (d.state ≡ closed) × (d.session_keys ≡ none)
  unfolding close
  close_final c d r = let (shut, gone, _) = Reach-IsShut (refl, refl, refl) r in (shut, gone)
