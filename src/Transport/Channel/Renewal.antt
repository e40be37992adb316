-- ===== src/Transport/Channel/Renewal.antt =====
-- A change of keys between two channels of the suite EN, from the request to its end.
use sip_protocol.Prelude.{◌+◌, ◌≡◌, some, ok, codes}
use sip_protocol.Crypto.Suite.{en}
use sip_protocol.Crypto.Primitives.{Primitives}
use sip_protocol.Crypto.Hkdf.{Keys}
use sip_protocol.Protocol.Rekey.{
  RekeyManager, RekeyRequest, RekeyResponse, RekeyInputs, create_rekey_request,
  process_rekey_request,
}
use sip_protocol.Transport.Channel.{Channel, rekey_pending}

module _ (p : Primitives) where
  -- A manager for these keys in the suite EN.
  record IsFor (keys : Keys) (manager : RekeyManager) : Type 0 where
    keys_eq : manager.keys ≡ keys
    suite_eq : manager.suite ≡ en

  -- A request that is under way.
  record Requested (inputs : RekeyInputs) (keys : Keys) (d : Channel) (request : RekeyRequest)
      : Type 0 where
    manager : RekeyManager
    requested : RekeyManager
    is_for : IsFor keys manager
    created :
        create_rekey_request p inputs manager (codes "scheduled") 3600 ≡ ok (request, requested)
    pending : d.handshake_state ≡ rekey_pending requested request
    keys_eq : d.session_keys ≡ some keys

  -- A request that was answered.
  record Renewed (inputs : RekeyInputs) (keys : Keys) (c d : Channel) (request : RekeyRequest)
      (response : RekeyResponse) : Type 0 where
    responder : RekeyManager
    next : RekeyManager
    new_keys : Keys
    is_for : IsFor keys responder
    processed : process_rekey_request p inputs responder request ≡ (next, ok response)
    made : next.temp_new_keys ≡ some new_keys
    next_eq : d ≡ record c { session_keys = some new_keys; rekey_completed = c.rekey_completed + 1 }
