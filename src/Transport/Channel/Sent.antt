-- ===== src/Transport/Channel/Sent.antt =====
-- What a `send` of transport/encrypted_channel.py that succeeds does to the channel, and what its check
-- for a change of keys leaves as it was.
use mathlib.Core.Path.{subst}
use sip_protocol.Prelude.{
  ℕ, zero, suc, ◌+◌, ◌≡◌, refl, ap, sym, List, Bool, true, false, Bool-cases, inl, inr, Option,
  none, some, Result, ok, err, ok-injective, if◌then◌else◌, runtime_error, value_error,
}
use sip_protocol.Crypto.Primitives.{Primitives}
use sip_protocol.Protocol.Message.{Message}
use sip_protocol.Protocol.Rekey.{RekeyInputs, RekeyRequest, RekeyManager}
use sip_protocol.Transport.Message.{Envelope, create_encrypted_message}
use sip_protocol.Transport.Channel.{Channel, rekeying, is_established, is_rekeying}
use sip_protocol.Transport.Channel.Send.{
  SendInputs, choose_recipient, is_rekey_due, rekey_started, initiate_rekey, check_since,
  check_rekey_needed, wrap_message, seal_text, send_checked, send_to, send,
}

-- What the check for a change of keys leaves as it was.
pub record IsKept (c d : Channel) : Type 0 where
  pub keys_eq : d.session_keys ≡ c.session_keys
  pub agent_eq : d.agent_id ≡ c.agent_id
  pub suite_eq : d.suite ≡ c.suite
  pub counter_eq : d.send_counter ≡ c.send_counter
  pub config_eq : d.config ≡ c.config
  pub since_eq : d.established_at ≡ c.established_at

if-IsKept :
    {A : Type 0} (b : Bool) (c : Channel) (x y : Channel × Result A)
    → IsKept c x.0
    → IsKept c y.0
    → IsKept c (if b then x else y).0
if-IsKept true c x y hx hy = hx
if-IsKept false c x y hx hy = hy

kept : (c : Channel) → IsKept c c
kept c = record {
  keys_eq = refl;
  agent_eq = refl;
  suite_eq = refl;
  counter_eq = refl;
  config_eq = refl;
  since_eq = refl;
}

module _ (p : Primitives) where
  rekey_started-IsKept :
      (now : ℕ) (c : Channel) (r : Result (RekeyRequest × RekeyManager))
      → IsKept c (rekey_started p now (record c { state = rekeying }) r).0
  unfolding rekey_started
  rekey_started-IsKept now c (err e) = record {
    keys_eq = refl;
    agent_eq = refl;
    suite_eq = refl;
    counter_eq = refl;
    config_eq = refl;
    since_eq = refl;
  }
  rekey_started-IsKept now c (ok (request, manager)) = record {
    keys_eq = refl;
    agent_eq = refl;
    suite_eq = refl;
    counter_eq = refl;
    config_eq = refl;
    since_eq = refl;
  }

  pub check_since-IsKept :
      (i : RekeyInputs) (now : ℕ) (c : Channel) (o : Option ℕ)
      → IsKept c (check_since p i now c o).0
  unfolding check_since initiate_rekey
  check_since-IsKept i now c none = kept c
  check_since-IsKept i now c (some zero) = kept c
  check_since-IsKept i now c (some (suc since)) =
      if-IsKept (is_rekeying c.state) c _ _ (kept c)
        (if-IsKept (is_rekey_due now c (suc since)) c _ _ (rekey_started-IsKept now c _) (kept c))

  -- What a successful `send` leaves, and the message that it made.
  pub record Sent (i : SendInputs) (t : List ℕ) (c d : Channel) (m : Envelope) : Type 0 where
    pub open_eq : is_established c.state ≡ true
    pub checked : Channel
    pub recipient : List ℕ
    pub message : Message
    pub check_eq : check_rekey_needed p i.rekey i.stamp.now c ≡ (checked, ok tt)
    pub seal_eq :
        seal_text p i (record checked { send_counter = checked.send_counter + 1 }) t recipient
        ≡ ok message
    pub next_eq : d ≡ record checked {
      send_counter = checked.send_counter + 1;
      messages_sent = checked.messages_sent + 1;
    }
    pub envelope_eq : m ≡ create_encrypted_message i.stamp checked.agent_id recipient message none

  send_checked-Sent :
      (i : SendInputs) (t to : List ℕ) (c d : Channel) (m : Envelope)
      (r : Channel × Result (Unit {0}))
      → is_established c.state ≡ true
      → check_rekey_needed p i.rekey i.stamp.now c ≡ r
      → send_checked p i t to r ≡ (d, ok m)
      → Sent i t c d m
  unfolding send_checked wrap_message
  send_checked-Sent i t to c d m (k, err e) o hr h =
      absurd (let x : err e ≡ ok m = ap (λ t. t.1) h in cc)
  send_checked-Sent i t to c d m (k, ok u) o hr h =
      let (message, made, next_eq, envelope_eq) =
        wrapped (seal_text p i (record k { send_counter = k.send_counter + 1 }) t to) h in
      record {
        open_eq = o;
        checked = k;
        recipient = to;
        message = message;
        check_eq = hr;
        seal_eq = made;
        next_eq = next_eq;
        envelope_eq = envelope_eq;
      }
    where
      wrapped :
          (r : Result Message)
          → wrap_message p i.stamp (record k { send_counter = k.send_counter + 1 }) to r ≡ (d, ok m)
          → (message : Message) × (r ≡ ok message)
            × (d ≡ record k {
              send_counter = k.send_counter + 1;
              messages_sent = k.messages_sent + 1;
            })
            × (m ≡ create_encrypted_message i.stamp k.agent_id to message none)
      wrapped (err e) hw = absurd (let x : err e ≡ ok m = ap (λ t. t.1) hw in cc)
      wrapped (ok message) hw =
          (message, refl, sym (ap (λ t. t.0) hw), sym (ok-injective (ap (λ t. t.1) hw)))

  pub send-Sent :
      (i : SendInputs) (c d : Channel) (t : List ℕ) (to : Option (List ℕ)) (m : Envelope)
      → send p i c t to ≡ (d, ok m)
      → Sent i t c d m
  unfolding send send_to
  send-Sent i c d t to m h = elim (Bool-cases (is_established c.state)) [
    | inr e ↦ absurd (let k : err runtime_error ≡ ok m = ap (λ t. t.1) (rw e at h) in cc)
    | inl e ↦ sent_to (choose_recipient to c.remote_agent_id) e (rw e at h)
  ]
    where
      sent_to :
          (o : Option (List ℕ))
          → is_established c.state ≡ true
          → send_to p i c t o ≡ (d, ok m)
          → Sent i t c d m
      sent_to none e hs = absurd (let k : err value_error ≡ ok m = ap (λ t. t.1) hs in cc)
      sent_to (some recipient) e hs = send_checked-Sent i t recipient c d m _ e refl hs

  -- The check of a successful `send` kept the keys, the suite and the counter.
  pub Sent-IsKept :
      (i : SendInputs) (t : List ℕ) (a a' : Channel) (m : Envelope) (sent : Sent i t a a' m)
      → IsKept a sent.checked
  unfolding check_rekey_needed
  Sent-IsKept i t a a' m sent =
      subst (λ x. IsKept a x.0) sent.check_eq
        (check_since-IsKept i.rekey i.stamp.now a a.established_at)
