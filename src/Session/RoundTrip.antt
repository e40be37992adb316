-- ===== src/Session/RoundTrip.antt =====
-- A session through its text.
use sip_protocol.Prelude.{
  ℕ, ◌≡◌, refl, sym, List, [], none, some, ok, ◌>>=◌, get_default, list_eq, list_eq-eq, Bool-cases,
  inl, inr, if◌then◌else◌,
}
use sip_protocol.Python.Base64.{b64decode, b64decode-b64encode}
use sip_protocol.Python.Bytes.{IsBytes}
use sip_protocol.Python.Utf8.{decode-encode, encode-IsBytes}
use sip_protocol.Session.{
  Secret, as_text, as_bytes, SessionState, SessionJson, default_suite, secret_text, session_dict,
  read_secret, read_session, serialize, deserialize,
}

-- A secret that was given, or never set.
pub data IsKept : Secret → Type 0 where
  kept : (bs : List ℕ) → IsBytes bs → IsKept (as_bytes bs)
  unset : IsKept (as_text [])

-- The bytes of a secret; one that was never set has none.
abbrev pub in_bytes : Secret → Secret
in_bytes (as_text t) = as_bytes []
in_bytes (as_bytes bs) = as_bytes bs

pub record AreKept (s : SessionState) : Type 0 where
  pub encryption_kept : IsKept s.encryption_key
  pub auth_kept : IsKept s.auth_key
  pub replay_kept : IsKept s.replay_key
  pub psk_kept : IsKept s.psk_hash
  pub salt_kept : IsKept s.salt

read_secret-text : (s : Secret) → IsKept s → read_secret (some (secret_text s)) ≡ ok (in_bytes s)
unfolding read_secret secret_text
read_secret-text _ (kept bs h) = rw (b64decode-b64encode bs h) refl
read_secret-text _ unset = b64decode-b64encode_nothing
  where
    b64decode-b64encode_nothing : (do bs ← b64decode []; ok (as_bytes bs)) ≡ ok (as_bytes [])
    b64decode-b64encode_nothing =
        let e : b64decode [] ≡ ok [] = unfold b64decode in refl in rw e refl

suite_kept :
    (t : List ℕ) → get_default (if list_eq t default_suite then none else some t) default_suite ≡ t
suite_kept t = elim (Bool-cases (list_eq t default_suite)) [
  | inl e ↦ rw e (sym (list_eq-eq t default_suite e))
  | inr e ↦ rw e refl
]

read_session-dict :
    (s : SessionState)
    → AreKept s
    → read_session (session_dict s)
      ≡ ok (record s {
        encryption_key = in_bytes s.encryption_key;
        auth_key = in_bytes s.auth_key;
        replay_key = in_bytes s.replay_key;
        psk_hash = in_bytes s.psk_hash;
        salt = in_bytes s.salt;
      })
unfolding read_session session_dict
read_session-dict s h =
    rw
      (
        read_secret-text s.encryption_key h.encryption_kept,
        read_secret-text s.auth_key h.auth_kept,
        read_secret-text s.replay_key h.replay_kept,
        read_secret-text s.psk_hash h.psk_kept,
        read_secret-text s.salt h.salt_kept,
        suite_kept s.suite,
      )
      refl

-- A session whose secrets are bytes, or the empty text that they are at first, is written without an
-- error and read back as it was, the suite included; only an unset secret comes back as no bytes.
pub deserialize-serialize :
    (json : SessionJson) (s : SessionState)
    → AreKept s
    → (do t ← serialize json s; deserialize json t)
      ≡ ok (record s {
        encryption_key = in_bytes s.encryption_key;
        auth_key = in_bytes s.auth_key;
        replay_key = in_bytes s.replay_key;
        psk_hash = in_bytes s.psk_hash;
        salt = in_bytes s.salt;
      })
unfolding serialize deserialize
deserialize-serialize json s h =
    let t = json.dumps (session_dict s) in
    let (raw, enc, dec) = decode-encode t (json.dumps-IsText (session_dict s)) in
    rw
      (
        enc,
        b64decode-b64encode raw (encode-IsBytes t raw (json.dumps-IsText (session_dict s)) enc),
        dec,
        json.loads-dumps (session_dict s),
      )
      (read_session-dict s h)
