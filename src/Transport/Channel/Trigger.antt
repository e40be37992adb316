-- ===== src/Transport/Channel/Trigger.antt =====
-- When `send` starts a change of keys.
use mathlib.Core.Path.{subst}
use sip_protocol.Prelude.{
  Bool-cases, inl, inr, ℕ, suc, ◌≤◌, ◌≡◌, refl, ap, ◌∙◌, sym, List, true, arith, Option, none, some,
  Result, ok, err, leb, runtime_error, value_error, assertion_error,
}
use sip_protocol.Crypto.Primitives.{Primitives}
use sip_protocol.Crypto.Hkdf.{Keys}
use sip_protocol.Protocol.Rekey.{
  RekeyManager, RekeyRequest, RekeyResponse, RekeyInputs, apply_new_keys,
}
use sip_protocol.Transport.Message.{Envelope}
use sip_protocol.Transport.Channel.{
  Channel, HandshakeState, no_handshake, initiating, responding, rekey_pending, established,
  rekeying, is_established, is_rekeying,
}
use sip_protocol.Transport.Channel.Send.{
  SendInputs, is_rekey_due, rekey_started, request_rekey, initiate_rekey, check_since,
  check_rekey_needed, send,
}
use sip_protocol.Transport.Channel.Rekey.{switch_keys, use_response, response_with, finish_rekey}
use sip_protocol.Transport.Channel.Sent.{send-Sent}
use sip_protocol.Transport.Channel.Steps.{Reach}
use sip_protocol.Transport.Channel.Later.{is_past, IsLater, send-IsLater, Reach-IsLater}

-- The channel, established at a time other than 0, has sent as many messages as one set of keys is
-- meant for.
abbrev pub IsDue : Channel → Type 0
IsDue c =
    (c.config.rekey_after_messages ≤ c.send_counter)
    × (since : ℕ) × (c.established_at ≡ some (suc since))

module _ (p : Primitives) where
  rekey_started-state :
      (now : ℕ) (c d : Channel) (r : Result (RekeyRequest × RekeyManager))
      → rekey_started p now c r ≡ (d, ok tt)
      → d.state ≡ c.state
  unfolding rekey_started
  rekey_started-state now c d (err e) h = absurd (let x : err e ≡ ok tt = ap (λ t. t.1) h in cc)
  rekey_started-state now c d (ok (request, manager)) h = sym (ap (λ t. t.0.state) h)

  check_since-due :
      (i : RekeyInputs) (now since : ℕ) (c d : Channel)
      → c.state ≡ established
      → c.config.rekey_after_messages ≤ c.send_counter
      → check_since p i now c (some (suc since)) ≡ (d, ok tt)
      → d.state ≡ rekeying
  unfolding check_since is_rekeying is_rekey_due initiate_rekey
  check_since-due i now since c d hs due h =
      let spent : leb c.config.rekey_after_messages c.send_counter ≡ true = ground (arith, due) in
      rekey_started-state now (record c { state = rekeying }) d (request_rekey p i c)
        (rw (hs, spent) at h)

  -- Where the messages that one set of keys is meant for are spent, every `send` that succeeds leaves
  -- the channel changing its keys, and the next `send` is refused.
  pub send_due :
      (i j : SendInputs) (c d : Channel) (t u : List ℕ) (to other : Option (List ℕ)) (m : Envelope)
      → c.state ≡ established
      → IsDue c
      → send p i c t to ≡ (d, ok m)
      → (d.state ≡ rekeying) × (send p j d u other ≡ (d, err runtime_error))
  unfolding send is_established check_rekey_needed
  send_due i j c d t u to other m hs (due, since, started) h =
      let sent = send-Sent p i c d t to m h in
      let e : d.state ≡ rekeying =
        ap (λ x. x.state) sent.next_eq
        ∙ check_since-due i.rekey i.stamp.now since c sent.checked hs due (
            subst (λ o. check_since p i.rekey i.stamp.now c o ≡ (sent.checked, ok tt)) started
              sent.check_eq) in
      (e, rw e refl)

  -- What a finished change of keys leaves.
  record Finished (c d : Channel) : Type 0 where
    state_eq : d.state ≡ established
    counter_eq : d.send_counter ≡ c.send_counter
    config_eq : d.config ≡ c.config
    since_eq : d.established_at ≡ c.established_at

  switch_keys-Finished :
      (c d : Channel) (request : RekeyRequest) (o : Option Keys) (manager : RekeyManager)
      → switch_keys p c request o manager ≡ (d, ok tt)
      → Finished c d
  unfolding switch_keys
  switch_keys-Finished c d request none manager h =
      absurd (let x : err assertion_error ≡ ok tt = ap (λ t. t.1) h in cc)
  switch_keys-Finished c d request (some old) manager h =
      let e = sym (ap (λ t. t.0) h) in
      record {
        state_eq = ap (λ t. t.state) e;
        counter_eq = ap (λ t. t.send_counter) e;
        config_eq = ap (λ t. t.config) e;
        since_eq = ap (λ t. t.established_at) e;
      }

  use_response-Finished :
      (c d : Channel) (request : RekeyRequest) (r : Result (Keys × RekeyManager))
      → use_response p c request r ≡ (d, ok tt)
      → Finished c d
  unfolding use_response
  use_response-Finished c d request (err e) h =
      absurd (let x : err e ≡ ok tt = ap (λ t. t.1) h in cc)
  use_response-Finished c d request (ok (new_keys, manager)) h =
      switch_keys-Finished c d request c.session_keys (apply_new_keys manager new_keys) h

  response_with-Finished :
      (now : ℕ) (c d : Channel) (response : RekeyResponse) (s : HandshakeState)
      → response_with p now c response s ≡ (d, ok tt)
      → Finished c d
  unfolding response_with
  response_with-Finished now c d response (rekey_pending manager request) h =
      use_response-Finished c d request _ h
  response_with-Finished now c d response no_handshake h =
      absurd (let x : err value_error ≡ ok tt = ap (λ t. t.1) h in cc)
  response_with-Finished now c d response (initiating s) h =
      absurd (let x : err value_error ≡ ok tt = ap (λ t. t.1) h in cc)
  response_with-Finished now c d response (responding s r) h =
      absurd (let x : err value_error ≡ ok tt = ap (λ t. t.1) h in cc)

  IsLater-IsDue : {c d : Channel} → IsLater c d → IsDue c → IsDue d
  IsLater-IsDue {c = c} {d = d} later (due, since, started) = (
    omega (arith, due, later.sent, ap (λ x. x.rekey_after_messages) later.config_eq),
    since,
    later.since_eq ∙ started,
  )

  send-established :
      (i : SendInputs) (c d : Channel) (t : List ℕ) (to : Option (List ℕ)) (m : Envelope)
      → send p i c t to ≡ (d, ok m)
      → c.state ≡ established
  unfolding send
  send-established i c d t to m h = elim (Bool-cases (is_established c.state)) [
    | inr e ↦ absurd (let k : err runtime_error ≡ ok m = ap (λ t. t.1) (rw e at h) in cc)
    | inl e ↦ unfold is_established in ground (arith, e)
  ]

  -- A change of keys does not set the count of sent messages back. Where a channel was established at a
  -- time other than 0, the messages that one set of keys is meant for were spent before a change of
  -- keys was finished, and the channel went through whatever operations since then: each `send` that succeeds starts a change of keys, the `send`
  -- after it is refused, and the messages are still spent.
  pub finish_rekey-IsDue :
      (i j : SendInputs) (now : ℕ) (c d e f : Channel) (response : RekeyResponse) (t u : List ℕ)
      (to other : Option (List ℕ)) (m : Envelope)
      → IsDue c
      → finish_rekey p now c response ≡ (d, ok tt)
      → Reach p d e
      → send p i e t to ≡ (f, ok m)
      → IsDue f × (f.state ≡ rekeying) × (send p j f u other ≡ (f, err runtime_error))
  unfolding finish_rekey
  finish_rekey-IsDue i j now c d e f response t u to other m (due, since, started) h run sent =
      let done = response_with-Finished now c d response c.handshake_state h in
      let finished : IsDue d = (
        omega (arith, due, done.counter_eq, ap (λ x. x.rekey_after_messages) done.config_eq),
        since,
        done.since_eq ∙ started,
      ) in
      let past : is_past d.state ≡ true = ap is_past done.state_eq in
      let later = Reach-IsLater p past run in
      let still = IsLater-IsDue later finished in
      let open_now = send-established i e f t to m sent in
      let (changing, refused) = send_due i j e f t u to other m open_now still sent in
      let after : IsLater e f =
        subst (λ x. IsLater e x.0) sent (send-IsLater p i e t to later.past) in
      (IsLater-IsDue after still, changing, refused)
