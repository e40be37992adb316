-- ===== src/Tests/Json.antt =====
-- Stand-ins for the JSON texts of envelopes and of sessions: the fields as lists of numbers, and
-- those written with three characters.
use sip_protocol.Prelude.{
  ℕ, zero, suc, ◌≡◌, refl, ap, ◌∙◌, ◌<◌, List, [], ◌∷◌, Option, none, some, ◌-◌, arith,
}
use sip_protocol.Python.Utf8.{IsText, IsScalar, is_surrogate}
use sip_protocol.Protocol.Message.{Message}
use sip_protocol.Protocol.Handshake.{Hello, Auth}
use sip_protocol.Transport.Message.{
  Payload, text_payload, encrypted_payload, control_payload, ControlData, no_data, hello_data,
  auth_data, error_data, EnvelopeDict, EnvelopeJson,
}
use sip_protocol.Session.{SessionDict, SessionJson}

-- a number as so many ones and a zero, a list closed by a two
abbrev write_number : ℕ → List ℕ → List ℕ
write_number zero rest = 48 ∷ rest
write_number (suc n) rest = 49 ∷ write_number n rest

abbrev write_list : List ℕ → List ℕ → List ℕ
write_list [] rest = 50 ∷ rest
write_list (n ∷ ns) rest = write_number n (write_list ns rest)

abbrev pub write : List (List ℕ) → List ℕ
write [] = []
write (l ∷ ls) = write_list l (write ls)

abbrev push : ℕ → List (List ℕ) → List (List ℕ)
push n [] = []
push n (l ∷ ls) = (n ∷ l) ∷ ls

abbrev raise_number : List (List ℕ) → List (List ℕ)
raise_number [] = []
raise_number ([] ∷ ls) = [] ∷ ls
raise_number ((n ∷ l) ∷ ls) = (suc n ∷ l) ∷ ls

abbrev read_char : ℕ → List (List ℕ) → List (List ℕ)
read_char zero ls = push 0 ls
read_char (suc zero) ls = raise_number ls
read_char (suc (suc n)) ls = [] ∷ ls

abbrev pub read : List ℕ → List (List ℕ)
read [] = []
read (c ∷ cs) = read_char (c - 48) (read cs)

raise_number-push : (n : ℕ) (ls : List (List ℕ)) → raise_number (push n ls) ≡ push (suc n) ls
raise_number-push n [] = refl
raise_number-push n (l ∷ ls) = refl

read-write_number : (n : ℕ) (rest : List ℕ) → read (write_number n rest) ≡ push n (read rest)
read-write_number zero rest = refl
read-write_number (suc n) rest =
    ap raise_number (read-write_number n rest) ∙ raise_number-push n (read rest)

read-write_list : (l rest : List ℕ) → read (write_list l rest) ≡ l ∷ read rest
read-write_list [] rest = refl
read-write_list (n ∷ ns) rest =
    read-write_number n (write_list ns rest) ∙ ap (push n) (read-write_list ns rest)

pub read-write : (ls : List (List ℕ)) → read (write ls) ≡ ls
read-write [] = refl
read-write (l ∷ ls) = read-write_list l (write ls) ∙ ap (λ t. l ∷ t) (read-write ls)

ascii : (c : ℕ) → c < 128 → IsScalar c
unfolding is_surrogate
ascii c h = record { below = omega (arith, h); no_surrogate = ground (arith, h) }

write_number-IsText : (n : ℕ) (rest : List ℕ) → IsText rest → IsText (write_number n rest)
write_number-IsText zero rest h = (ascii 48 (omega arith), h)
write_number-IsText (suc n) rest h = (ascii 49 (omega arith), write_number-IsText n rest h)

write_list-IsText : (l rest : List ℕ) → IsText rest → IsText (write_list l rest)
write_list-IsText [] rest h = (ascii 50 (omega arith), h)
write_list-IsText (n ∷ ns) rest h =
    write_number-IsText n (write_list ns rest) (write_list-IsText ns rest h)

pub write-IsText : (ls : List (List ℕ)) → IsText (write ls)
write-IsText [] = tt
write-IsText (l ∷ ls) = write_list-IsText l (write ls) (write-IsText ls)

-- the fields
abbrev put_text : Option (List ℕ) → List ℕ
put_text none = []
put_text (some t) = 1 ∷ t

abbrev get_text : List ℕ → Option (List ℕ)
get_text [] = none
get_text (c ∷ t) = some t

get_text-put : (o : Option (List ℕ)) → get_text (put_text o) ≡ o
get_text-put none = refl
get_text-put (some t) = refl

abbrev put_number : Option ℕ → List ℕ
put_number none = []
put_number (some n) = n ∷ []

abbrev get_number : List ℕ → Option ℕ
get_number [] = none
get_number (n ∷ ns) = some n

get_number-put : (o : Option ℕ) → get_number (put_number o) ≡ o
get_number-put none = refl
get_number-put (some n) = refl

unfoldable pub message_cells : Message → List (List ℕ)
message_cells d =
    put_text d.version
    ∷ put_text d.message_type
    ∷ put_number d.timestamp
    ∷ put_text d.sender_id
    ∷ put_text d.recipient_id
    ∷ put_number d.message_counter
    ∷ put_text d.iv
    ∷ put_text d.payload
    ∷ put_text d.auth_tag
    ∷ put_text d.suite
    ∷ put_text d.replay_tag
    ∷ []

unfoldable pub message_of : List (List ℕ) → Option Message
message_of (c0 ∷ c1 ∷ c2 ∷ c3 ∷ c4 ∷ c5 ∷ c6 ∷ c7 ∷ c8 ∷ c9 ∷ c10 ∷ []) = some record {
  version = get_text c0;
  message_type = get_text c1;
  timestamp = get_number c2;
  sender_id = get_text c3;
  recipient_id = get_text c4;
  message_counter = get_number c5;
  iv = get_text c6;
  payload = get_text c7;
  auth_tag = get_text c8;
  suite = get_text c9;
  replay_tag = get_text c10;
}
message_of other = none

pub message_of-cells : (d : Message) → message_of (message_cells d) ≡ some d
unfolding message_of message_cells
message_of-cells d =
    rw
      (
        get_text-put d.version,
        get_text-put d.message_type,
        get_number-put d.timestamp,
        get_text-put d.sender_id,
        get_text-put d.recipient_id,
        get_number-put d.message_counter,
        get_text-put d.iv,
        get_text-put d.payload,
        get_text-put d.auth_tag,
        get_text-put d.suite,
        get_text-put d.replay_tag,
      )
      refl

unfoldable pub hello_cells : Hello → List (List ℕ)
hello_cells d =
    put_text d.version
    ∷ put_number d.timestamp
    ∷ put_text d.identity_pub
    ∷ put_text d.ephemeral_pub
    ∷ put_text d.nonce
    ∷ put_text d.suite
    ∷ []

unfoldable pub hello_of : List (List ℕ) → Option Hello
hello_of (c0 ∷ c1 ∷ c2 ∷ c3 ∷ c4 ∷ c5 ∷ []) = some record {
  version = get_text c0;
  timestamp = get_number c1;
  identity_pub = get_text c2;
  ephemeral_pub = get_text c3;
  nonce = get_text c4;
  suite = get_text c5;
}
hello_of other = none

pub hello_of-cells : (d : Hello) → hello_of (hello_cells d) ≡ some d
unfolding hello_of hello_cells
hello_of-cells d =
    rw
      (
        get_text-put d.version,
        get_number-put d.timestamp,
        get_text-put d.identity_pub,
        get_text-put d.ephemeral_pub,
        get_text-put d.nonce,
        get_text-put d.suite,
      )
      refl

unfoldable pub auth_cells : Auth → List (List ℕ)
auth_cells d =
    put_text d.version
    ∷ put_number d.timestamp
    ∷ put_text d.identity_pub
    ∷ put_text d.ephemeral_pub
    ∷ put_text d.nonce
    ∷ put_text d.signature
    ∷ put_text d.suite
    ∷ []

unfoldable pub auth_of : List (List ℕ) → Option Auth
auth_of (c0 ∷ c1 ∷ c2 ∷ c3 ∷ c4 ∷ c5 ∷ c6 ∷ []) = some record {
  version = get_text c0;
  timestamp = get_number c1;
  identity_pub = get_text c2;
  ephemeral_pub = get_text c3;
  nonce = get_text c4;
  signature = get_text c5;
  suite = get_text c6;
}
auth_of other = none

pub auth_of-cells : (d : Auth) → auth_of (auth_cells d) ≡ some d
unfolding auth_of auth_cells
auth_of-cells d =
    rw
      (
        get_text-put d.version,
        get_number-put d.timestamp,
        get_text-put d.identity_pub,
        get_text-put d.ephemeral_pub,
        get_text-put d.nonce,
        get_text-put d.signature,
        get_text-put d.suite,
      )
      refl

unfoldable pub data_cells : ControlData → List (List ℕ)
data_cells no_data = []
data_cells (hello_data h) = (1 ∷ []) ∷ hello_cells h
data_cells (auth_data a) = (2 ∷ []) ∷ auth_cells a
data_cells (error_data m) = (3 ∷ []) ∷ put_text m ∷ []

abbrev or_no_data : {A : Type 0} → (A → ControlData) → Option A → ControlData
or_no_data f none = no_data
or_no_data f (some a) = f a

unfoldable pub data_of : List (List ℕ) → ControlData
data_of ((suc zero ∷ []) ∷ cs) = or_no_data hello_data (hello_of cs)
data_of ((suc (suc zero) ∷ []) ∷ cs) = or_no_data auth_data (auth_of cs)
data_of ((suc (suc (suc n)) ∷ []) ∷ c ∷ cs) = error_data (get_text c)
data_of other = no_data

data_of-cells : (d : ControlData) → data_of (data_cells d) ≡ d
unfolding data_of data_cells
data_of-cells no_data = refl
data_of-cells (hello_data h) = ap (or_no_data hello_data) (hello_of-cells h)
data_of-cells (auth_data a) = ap (or_no_data auth_data) (auth_of-cells a)
data_of-cells (error_data m) = ap error_data (get_text-put m)

unfoldable pub payload_cells : Payload → List (List ℕ)
payload_cells (text_payload t) = [] ∷ put_text t ∷ []
payload_cells (encrypted_payload m) = (1 ∷ []) ∷ message_cells m
payload_cells (control_payload action part) = (2 ∷ []) ∷ put_text action ∷ data_cells part

abbrev wrap_message : Option Message → Option Payload
wrap_message none = none
wrap_message (some m) = some (encrypted_payload m)

unfoldable pub payload_of : List (List ℕ) → Option Payload
payload_of ([] ∷ c ∷ cs) = some (text_payload (get_text c))
payload_of ((suc zero ∷ []) ∷ cs) = wrap_message (message_of cs)
payload_of ((suc (suc n) ∷ []) ∷ c ∷ cs) = some (control_payload (get_text c) (data_of cs))
payload_of other = none

payload_of-cells : (d : Payload) → payload_of (payload_cells d) ≡ some d
unfolding payload_of payload_cells
payload_of-cells (text_payload t) = ap (λ x. some (text_payload x)) (get_text-put t)
payload_of-cells (encrypted_payload m) = ap (wrap_message) (message_of-cells m)
payload_of-cells (control_payload action part) = rw (get_text-put action, data_of-cells part) refl

abbrev put_payload : Option Payload → List ℕ
put_payload none = []
put_payload (some d) = 1 ∷ write (payload_cells d)

abbrev get_payload : List ℕ → Option Payload
get_payload [] = none
get_payload (c ∷ t) = payload_of (read t)

get_payload-put : (o : Option Payload) → get_payload (put_payload o) ≡ o
get_payload-put none = refl
get_payload-put (some d) = ap payload_of (read-write (payload_cells d)) ∙ payload_of-cells d

abbrev pair_cells : List (List ℕ × List ℕ) → List (List ℕ)
pair_cells [] = []
pair_cells ((a, b) ∷ ps) = a ∷ b ∷ pair_cells ps

abbrev pairs_of : List (List ℕ) → List (List ℕ × List ℕ)
pairs_of [] = []
pairs_of (a ∷ []) = []
pairs_of (a ∷ b ∷ cs) = (a, b) ∷ pairs_of cs

pairs_of-cells : (ps : List (List ℕ × List ℕ)) → pairs_of (pair_cells ps) ≡ ps
pairs_of-cells [] = refl
pairs_of-cells ((a, b) ∷ ps) = ap (λ t. (a, b) ∷ t) (pairs_of-cells ps)

abbrev put_metadata : Option (List (List ℕ × List ℕ)) → List ℕ
put_metadata none = []
put_metadata (some ps) = 1 ∷ write (pair_cells ps)

abbrev get_metadata : List ℕ → Option (List (List ℕ × List ℕ))
get_metadata [] = none
get_metadata (c ∷ t) = some (pairs_of (read t))

get_metadata-put : (o : Option (List (List ℕ × List ℕ))) → get_metadata (put_metadata o) ≡ o
get_metadata-put none = refl
get_metadata-put (some ps) =
    ap (λ t. some (pairs_of t)) (read-write (pair_cells ps)) ∙ ap some (pairs_of-cells ps)

unfoldable pub envelope_cells : EnvelopeDict → List (List ℕ)
envelope_cells d =
    put_text d.id
    ∷ put_text d.version
    ∷ put_text d.message_type
    ∷ put_text d.sender_id
    ∷ put_text d.recipient_id
    ∷ put_number d.timestamp
    ∷ put_payload d.payload
    ∷ put_number d.priority
    ∷ put_metadata d.metadata
    ∷ put_text d.correlation_id
    ∷ put_number d.hop_count
    ∷ put_number d.max_hops
    ∷ write d.other_keys
    ∷ []

unfoldable pub envelope_of : List (List ℕ) → Option EnvelopeDict
envelope_of (c0 ∷ c1 ∷ c2 ∷ c3 ∷ c4 ∷ c5 ∷ c6 ∷ c7 ∷ c8 ∷ c9 ∷ c10 ∷ c11 ∷ c12 ∷ []) = some record {
  id = get_text c0;
  version = get_text c1;
  message_type = get_text c2;
  sender_id = get_text c3;
  recipient_id = get_text c4;
  timestamp = get_number c5;
  payload = get_payload c6;
  priority = get_number c7;
  metadata = get_metadata c8;
  correlation_id = get_text c9;
  hop_count = get_number c10;
  max_hops = get_number c11;
  other_keys = read c12;
}
envelope_of other = none

pub envelope_of-cells : (d : EnvelopeDict) → envelope_of (envelope_cells d) ≡ some d
unfolding envelope_of envelope_cells
envelope_of-cells d =
    rw
      (
        get_text-put d.id,
        get_text-put d.version,
        get_text-put d.message_type,
        get_text-put d.sender_id,
        get_text-put d.recipient_id,
        get_number-put d.timestamp,
        get_payload-put d.payload,
        get_number-put d.priority,
        get_metadata-put d.metadata,
        get_text-put d.correlation_id,
        get_number-put d.hop_count,
        get_number-put d.max_hops,
        read-write d.other_keys,
      )
      refl

unfoldable pub session_cells : SessionDict → List (List ℕ)
session_cells d =
    put_text d.version
    ∷ put_text d.agent_id
    ∷ put_text d.remote_agent_id
    ∷ put_text d.remote_public_key
    ∷ put_text d.encryption_key
    ∷ put_text d.auth_key
    ∷ put_text d.replay_key
    ∷ put_number d.message_counter
    ∷ put_text d.psk_hash
    ∷ put_text d.salt
    ∷ put_text d.local_nonce
    ∷ put_text d.remote_nonce
    ∷ put_number d.created_at
    ∷ put_number d.last_activity_at
    ∷ put_text d.suite
    ∷ []

unfoldable pub session_of : List (List ℕ) → Option SessionDict
session_of (c0 ∷ c1 ∷ c2 ∷ c3 ∷ c4 ∷ c5 ∷ c6 ∷ c7 ∷ c8 ∷ c9 ∷ c10 ∷ c11 ∷ c12 ∷ c13 ∷ c14 ∷ []) =
    some record {
      version = get_text c0;
      agent_id = get_text c1;
      remote_agent_id = get_text c2;
      remote_public_key = get_text c3;
      encryption_key = get_text c4;
      auth_key = get_text c5;
      replay_key = get_text c6;
      message_counter = get_number c7;
      psk_hash = get_text c8;
      salt = get_text c9;
      local_nonce = get_text c10;
      remote_nonce = get_text c11;
      created_at = get_number c12;
      last_activity_at = get_number c13;
      suite = get_text c14;
    }
session_of other = none

pub session_of-cells : (d : SessionDict) → session_of (session_cells d) ≡ some d
unfolding session_of session_cells
session_of-cells d =
    rw
      (
        get_text-put d.version,
        get_text-put d.agent_id,
        get_text-put d.remote_agent_id,
        get_text-put d.remote_public_key,
        get_text-put d.encryption_key,
        get_text-put d.auth_key,
        get_text-put d.replay_key,
        get_number-put d.message_counter,
        get_text-put d.psk_hash,
        get_text-put d.salt,
        get_text-put d.local_nonce,
        get_text-put d.remote_nonce,
        get_number-put d.created_at,
        get_number-put d.last_activity_at,
        get_text-put d.suite,
      )
      refl

abbrev pub toy_envelope_json : EnvelopeJson
toy_envelope_json = record {
  dumps = λ d. write (envelope_cells d);
  loads = λ t. envelope_of (read t);
  loads-dumps = λ d. ap envelope_of (read-write (envelope_cells d)) ∙ envelope_of-cells d;
}

abbrev pub toy_session_json : SessionJson
toy_session_json = record {
  dumps = λ d. write (session_cells d);
  loads = λ t. session_of (read t);
  loads-dumps = λ d. ap session_of (read-write (session_cells d)) ∙ session_of-cells d;
  dumps-IsText = λ d. write-IsText (session_cells d);
}
