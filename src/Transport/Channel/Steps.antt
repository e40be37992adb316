-- ===== src/Transport/Channel/Steps.antt =====
-- The operations of transport/encrypted_channel.py as steps of a channel.
use sip_protocol.Prelude.{ℕ, List, Option}
use sip_protocol.Crypto.Primitives.{Primitives}
use sip_protocol.Protocol.Handshake.{Inputs}
use sip_protocol.Protocol.Rekey.{RekeyInputs, RekeyRequest, RekeyResponse}
use sip_protocol.Transport.Message.{Envelope, Stamp}
use sip_protocol.Crypto.Hkdf.{Keys}
use sip_protocol.Transport.Channel.{Channel, update_session_keys, close}
use sip_protocol.Transport.Channel.Handshake.{initiate, respond_to_handshake, complete}
use sip_protocol.Transport.Channel.Send.{SendInputs, send}
use sip_protocol.Transport.Channel.Receive.{receive}
use sip_protocol.Transport.Channel.Rekey.{finish_rekey, handle_rekey_request}

module _ (p : Primitives) where
  -- The operations of a channel, on any inputs.
  pub data Step : Channel → Channel → Type 0 where
    initiates : (i : Inputs) (stamp : Stamp) (c : Channel) → Step c (initiate p i stamp c).0
    responds :
        (i : Inputs) (stamp : Stamp) (c : Channel) (m : Envelope)
        → Step c (respond_to_handshake p i stamp c m).0
    completes : (now : ℕ) (c : Channel) (m : Envelope) → Step c (complete p now c m).0
    sends :
        (i : SendInputs) (c : Channel) (t : List ℕ) (to : Option (List ℕ))
        → Step c (send p i c t to).0
    receives : (now : ℕ) (c : Channel) (m : Envelope) → Step c (receive p now c m).0
    finishes : (now : ℕ) (c : Channel) (r : RekeyResponse) → Step c (finish_rekey p now c r).0
    answers :
        (i : RekeyInputs) (c : Channel) (r : RekeyRequest) → Step c (handle_rekey_request p i c r).0
    updates : (c : Channel) (keys : Keys) → Step c (update_session_keys c keys)
    closes : (c : Channel) → Step c (close c)

  pub data Reach (c : Channel) : Channel → Type 0 where
    here : Reach c c
    next : {d e : Channel} → Reach c d → Step d e → Reach c e
